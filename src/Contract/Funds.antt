-- ===== src/Contract/Funds.antt =====
-- src/actions.cpp and src/admin_actions.cpp: what withdrawals and balance repairs do to the funds.
use native.Mathlib.Nat.{mul-le-mul_right}
use eos_evm_contract.Prelude.{
  ℕ, ◌+◌, ◌-◌, ◌*◌, ◌/◌, ◌%◌, ◌^◌, ◌≤◌, ◌<◌, ◌≡◌, refl, Bool, true, false, Option, some, [], ◌∷◌,
  ◌++◌, ok, arith, value_or, if◌then◌else◌, Option-cases, Result-cases, ap, sym, ◌∙◌, inl, inr,
  ◌==◌,
}
use eos_evm_contract.Prelude.Int.{◌-ℤ◌, ◌≤ℤ◌}
use eos_evm_contract.Table.{find, find-put}
use eos_evm_contract.Bytes.{Bytes, Intx, to_uint256}
use eos_evm_contract.Balance.{Asset, AssetOps, Symbol, BalanceWithDust, max_amount}
use eos_evm_contract.Balance.Laws.{
  div-le_of_lt, holding, unit_of, IsToken, add_amount-holding, sub_amount-holding,
}
use eos_evm_contract.State.{AccountRow}
use eos_evm_contract.Contract.{text, Host, Contract, token_symbol}
use eos_evm_contract.Contract.Accounts.{withdraw}
use eos_evm_contract.Contract.Repair.{addevmbal, add_evm_balance, subtract_evm_balance}

-- A withdrawal that goes through takes its quantity, no more than the balance of the owner, from
-- that balance, leaves its dust and the balance of everyone else, and sends exactly one transfer, of that quantity, to the
-- receiver or else to the owner.
pub withdraw-moves :
    (a : AssetOps) (h : Host) (owner : ℕ) (quantity : Asset) (to : Option ℕ) (c c' : Contract)
    (who : ℕ)
    → withdraw a h owner quantity to c ≡ ok c'
    → (b : BalanceWithDust) × (b' : BalanceWithDust) × (find owner c.balances ≡ some b)
      × (find owner c'.balances ≡ some b')
      × (quantity.amount ≤ℤ b.balance.amount)
      × (b'.balance.amount ≡ b.balance.amount -ℤ quantity.amount)
      × (b'.dust ≡ b.dust)
      × (find who c'.balances ≡ (if who == owner then some b' else find who c.balances))
      × (c'.sent
          ≡ c.sent
            ++ (record {
              token = c.config.token_contract;
              to = value_or to owner;
              quantity = quantity;
              memo = text "Withdraw from EVM balance";
            }
                ∷ []))
unfolding withdraw
withdraw-moves a h owner quantity to c c' who e = elim (Option-cases (find owner c.balances)) [
  | inl missing ↦ absurd (ground (arith, missing))
  | inr (b, found) ↦
      elim (Result-cases (a.sub (record (b.balance) { symbol = token_symbol c }) quantity)) [
        | inr (m, failed) ↦ absurd (ground (arith, found, failed))
        | inl (rest, left) ↦ (
          b,
          record b { balance = rest },
          found,
          ground
              (arith, found, left, find-put owner owner (record b { balance = rest }) c.balances),
          ground (arith, found, left),
          (a.sub-eq-ok (record (b.balance) { symbol = token_symbol c }) quantity rest left).2,
          refl,
          ground (arith, found, left, find-put who owner (record b { balance = rest }) c.balances),
          ground (arith, found, left),
        )
      ]
]

-- The units of a token balance that is not negative, with the dust.
abbrev pub units : Symbol → ℕ → ℕ → ℕ
units s a d = a * unit_of s + d

-- The row, the stored balance and the total that the repair reads.
module _ (x : Intx) (old d : ℕ) (r : AccountRow) (s : Symbol) (a dust : ℕ)
    (stored : to_uint256 x r.balance ≡ ok old) (small_old : old < 2 ^ 256) (token : IsToken s)
    (ha : a ≤ max_amount) (hd : dust < unit_of s) where
  -- What a repair leaves: the new balance of the account, and the new total, which moved with it.
  Together : BalanceWithDust × ℕ → ℕ → Type 0
  Together m new =
      (a' : ℕ) × (dust' : ℕ) × (m ≡ (holding s a' dust', new))
      × (new < 2 ^ 256)
      × (dust' < unit_of s)
      × (a' ≤ max_amount)
      × (new + units s a dust ≡ old + units s a' dust')

  subtract-Together :
      (m : BalanceWithDust × ℕ)
      → subtract_evm_balance x r d (some (holding s a dust)) ≡ ok m
      → Together m (old - d)
  unfolding subtract_evm_balance Together
  subtract-Together m e =
      let taken = sub_amount-holding s a dust d token ha hd in
      let total = units s a dust - d in
      let known : (d ≤ units s a dust)
          × (d ≤ old)
          × (m ≡ (holding s (total / unit_of s) (total % unit_of s), old - d)) =
        ground (arith, taken, stored) in
      (
        total / unit_of s,
        total % unit_of s,
        known.2,
        omega arith,
        omega arith,
        div-le_of_lt total max_amount (unit_of s) (omega (arith, mul-le-mul_right (unit_of s) ha)),
        omega (arith, known.0, known.1),
      )

  add-Together :
      (m : BalanceWithDust × ℕ)
      → add_evm_balance x r d (some (holding s a dust)) ≡ ok m
      → Together m (old + d)
  unfolding add_evm_balance Together
  add-Together m e =
      let added = add_amount-holding s a dust d token ha hd in
      let total = units s a dust + d in
      let known : (total < (max_amount + 1) * unit_of s)
          × (old + d < 2 ^ 256)
          × (m ≡ (holding s (total / unit_of s) (total % unit_of s), old + d)) =
        ground (arith, added, stored) in
      (
        total / unit_of s,
        total % unit_of s,
        known.2,
        known.1,
        omega arith,
        div-le_of_lt total max_amount (unit_of s) known.0,
        omega (arith, known.0),
      )

-- The outcome of the branch that a repair takes, and where it is stored.
repair_parts :
    (x : Intx) (h : Host) (id d : ℕ) (delta : Bytes) (r : AccountRow) (subtract : Bool)
    (c c' : Contract)
    → find id c.evm.accounts ≡ some r
    → to_uint256 x delta ≡ ok d
    → addevmbal x h id delta subtract c ≡ ok c'
    → (m : BalanceWithDust × ℕ) × ((if subtract
          then subtract_evm_balance x r d c.inevm
          else add_evm_balance x r d c.inevm)
        ≡ ok m)
      × (find id c'.evm.accounts ≡ some (record r { balance = x.be_store m.1 }))
      × (c'.inevm ≡ some m.0)
unfolding addevmbal
repair_parts x h id d delta r subtract c c' found read e =
    elim (Result-cases
      (if subtract then subtract_evm_balance x r d c.inevm else add_evm_balance x r d c.inevm)) [
        | inr (m, failed) ↦ absurd (ground (arith, read, found, failed))
        | inl (m, moved) ↦ (
          m,
          moved,
          ground (
            arith,
            read,
            found,
            moved,
            find-put id id (record r { balance = x.be_store m.1 }) c.evm.accounts,
          ),
          ground (arith, read, found, moved),
        )
      ]

-- A repair of the EVM balance of an account that goes through moves that balance and the total in
-- the EVM by the same amount, up or down, in whole EVM units and the dust together: neither overflows
-- nor falls below zero, and the new balance is stored as its 32 bytes. The stored balance and the amount
-- are what their bytes stand for, of any length, the balance below 2^256; the total was within
-- asset::max_amount, with less dust than a unit.
pub addevmbal-together :
    (x : Intx) (h : Host) (id old d : ℕ) (delta : Bytes) (r : AccountRow) (s : Symbol) (a dust : ℕ)
    (subtract : Bool) (c c' : Contract)
    → find id c.evm.accounts ≡ some r
    → to_uint256 x r.balance ≡ ok old
    → old < 2 ^ 256
    → to_uint256 x delta ≡ ok d
    → c.inevm ≡ some (holding s a dust)
    → IsToken s
    → a ≤ max_amount
    → dust < unit_of s
    → addevmbal x h id delta subtract c ≡ ok c'
    → (new : ℕ) × (a' : ℕ) × (dust' : ℕ) × (new ≡ (if subtract then old - d else old + d))
      × (new < 2 ^ 256)
      × (find id c'.evm.accounts ≡ some (record r { balance = x.be_store new }))
      × (c'.inevm ≡ some (holding s a' dust'))
      × (dust' < unit_of s)
      × (a' ≤ max_amount)
      × (new + units s a dust ≡ old + units s a' dust')
addevmbal-together x h id old d delta r s a dust subtract c c' found stored small_old read total
      token ha hd e =
    let (m, moved, kept, inevm) = repair_parts x h id d delta r subtract c c' found read e in
    let outcome = by_branch subtract m moved in
    let same = outcome.2 in
    (
      (if subtract then old - d else old + d),
      outcome.0,
      outcome.1,
      refl,
      outcome.3,
      kept ∙ ap (λ (t : BalanceWithDust × ℕ). some (record r { balance = x.be_store t.1 })) same,
      inevm ∙ ap (λ (t : BalanceWithDust × ℕ). some t.0) same,
      outcome.4,
      outcome.5,
      outcome.6,
    )
  where
    by_branch :
        (b : Bool) (m : BalanceWithDust × ℕ)
        → (if b then subtract_evm_balance x r d c.inevm else add_evm_balance x r d c.inevm) ≡ ok m
        → (a' : ℕ) × (dust' : ℕ) × (m ≡ (holding s a' dust', (if b then old - d else old + d)))
          × ((if b then old - d else old + d) < 2 ^ 256)
          × (dust' < unit_of s)
          × (a' ≤ max_amount)
          × ((if b then old - d else old + d) + units s a dust ≡ old + units s a' dust')
    by_branch true m moved =
        unfold Together in
        subtract-Together x old d r s a dust stored small_old token ha hd m
          (ap (subtract_evm_balance x r d) (sym total) ∙ moved)
    by_branch false m moved =
        unfold Together in
        add-Together x old d r s a dust stored small_old token ha hd m
          (ap (add_evm_balance x r d) (sym total) ∙ moved)
