-- ===== src/Contract/Deposits.antt =====
-- src/actions.cpp: what the bridge transfers into the contract do to its funds.
use eos_evm_contract.Prelude.{
  ℕ, ◌*◌, ◌%◌, ◌^◌, ◌≤◌, ◌<◌, ◌≡◌, refl, Bool, true, some, [], ◌∷◌, ok, arith, Result-cases,
  Option-cases, Bool-cases, inl, inr, leb, ◌==◌, if◌then◌else◌, ◌∙◌, ap, sym,
}
use native.Mathlib.Nat.{mul-le-mul}
use eos_evm_contract.Prelude.Int.{ℤ, pos, negsuc, ◌-ℤ◌, ◌+ℤ◌, ◌≤ℤ◌, ltb_ℤ, to_uint64, two_64}
use eos_evm_contract.Table.{Table, find, put, find-put}
use eos_evm_contract.Bytes.{Bytes}
use eos_evm_contract.Balance.{
  Asset, AssetOps, BalanceWithDust, max_amount, pow10_const, evm_precision,
}
use eos_evm_contract.Balance.Laws.{IsToken, unit_of, exponent, unit_bounds}
use eos_evm_contract.PriceQueue.{PriceQueue, process_loop, process_queue, front_of}
use eos_evm_contract.Config.Consensus.{get_minimum_natively_representable}
use eos_evm_contract.Contract.Ingress.{
  Parsing, Dispatch, process_prices, record_fee, bridge_in, handle_evm_transfer,
  handle_account_transfer,
}
use eos_evm_contract.Contract.{set_statistics, get_statistics, token_symbol}
use eos_evm_contract.Config.{get_evm_version, current_block}
use eos_evm_contract.Config.{ConfigWrapper, set_gas_price, set_gas_prices}
use eos_evm_contract.Config.Prices.{process_price_queue, old_queue, new_queue}
use eos_evm_contract.Contract.{Host, Contract}
use eos_evm_contract.Contract.Accounts.{get_and_increment_nonce}

-- What a step of the price queue keeps of the configuration, the queue keeps.
module _ {V : Type 0} (update : V → ConfigWrapper → ConfigWrapper)
    (keeps : (v : V) (w : ConfigWrapper)
      → (update v w).ingress_bridge_fee ≡ w.ingress_bridge_fee) where
  process_loop_keeps :
      (current : ℕ) (w : ConfigWrapper) (front : ℕ) (dirty : Bool) (q : Table V)
      → (process_loop update current w front dirty q).0.ingress_bridge_fee ≡ w.ingress_bridge_fee
  unfolding process_loop
  process_loop_keeps current w front dirty [] = refl
  process_loop_keeps current w front dirty ((block, v) ∷ q) =
      elim (Bool-cases (leb block current)) [
        | inl due ↦ rw due (process_loop_keeps current (update v w) (front_of q) true q ∙ keeps v w)
        | inr later ↦ rw later
      ]

  process_queue_keeps :
      (current : ℕ) (w : ConfigWrapper) (q : PriceQueue V)
      → (process_queue update current w q).0.ingress_bridge_fee ≡ w.ingress_bridge_fee
  unfolding process_queue
  process_queue_keeps current w q =
      ground (arith, process_loop_keeps current w q.front q.dirty q.rows)

pub process_prices_keeps :
    (h : Host) (c : Contract)
    → (process_prices h c).config.ingress_bridge_fee ≡ c.config.ingress_bridge_fee
unfolding process_prices process_price_queue set_gas_price set_gas_prices
process_prices_keeps h c = elim (Bool-cases (leb 1 (get_evm_version h.platform c.config))) [
  | inr early ↦ rw early
  | inl paid ↦ rw paid (elim (Bool-cases (leb 3 (get_evm_version h.platform c.config))) [
    | inl new ↦ rw new (
        process_queue_keeps set_gas_prices (λ v w. refl) (current_block h.platform c.config)
          c.config (new_queue c.config))
    | inr old ↦ rw old (
        process_queue_keeps set_gas_price (λ v w. refl) (current_block h.platform c.config) c.config
          (old_queue c.config))
  ])
]

pub process_prices_frame :
    (h : Host) (c : Contract)
    → (c.balances ≡ (process_prices h c).balances)
      × (c.inevm ≡ (process_prices h c).inevm)
      × (c.sent ≡ (process_prices h c).sent)
unfolding process_prices
process_prices_frame h c = ground arith

process_prices_balances :
    (h : Host) (c : Contract)
    → ((process_prices h c).balances ≡ c.balances)
      × ((process_prices h c).nextnonces ≡ c.nextnonces)
unfolding process_prices
process_prices_balances h c = ground arith

record_fee_keeps :
    (a : AssetOps) (p : Parsing) (h : Host) (c c' : Contract)
    → record_fee a p h c ≡ ok c'
    → (c'.balances ≡ c.balances) × (c'.nextnonces ≡ c.nextnonces)
unfolding record_fee set_statistics get_statistics
record_fee_keeps a p h c c' e = ground arith

-- What bridge_in does once its parts have run, on the balance of the contract, its nonce, and the
-- transaction that it makes.
bridge_in_parts :
    (a : AssetOps) (p : Parsing) (h : Host) (version : ℕ) (quantity : Asset) (memo : Bytes)
    (unit : ℕ) (c c' : Contract) (d : Dispatch)
    → get_minimum_natively_representable c.config ≡ ok unit
    → bridge_in a p h version quantity memo c ≡ ok (c', d)
    → (b : BalanceWithDust) × (sum : Asset) × (rest : Asset) × (find h.self c.balances ≡ some b)
      × (a.add b.balance quantity ≡ ok sum)
      × (a.sub quantity c.config.ingress_bridge_fee ≡ ok rest)
      × (ltb_ℤ (pos 0) rest.amount ≡ true)
      × (find h.self c'.balances ≡ some (record b { balance = sum }))
      × (find h.self c.nextnonces ≡ some d.txn.nonce)
      × (d.txn.value ≡ to_uint64 rest.amount * unit % 2 ^ 256)
unfolding bridge_in get_and_increment_nonce
bridge_in_parts a p h version quantity memo unit c c' d u e =
    elim (Option-cases (find h.self c.balances)) [
      | inl missing ↦ absurd (ground (arith, missing))
      | inr (b, found) ↦ elim (Result-cases (a.add b.balance quantity)) [
        | inr (m, failed) ↦ absurd (ground (arith, found, failed))
        | inl (sum, added) ↦ elim (Result-cases (a.sub quantity c.config.ingress_bridge_fee)) [
          | inr (m, failed) ↦ absurd (ground (arith, found, added, failed))
          | inl (rest, taken) ↦ with_rest b sum rest found added taken
        ]
      ]
    ]
  where
    with_rest :
        (b : BalanceWithDust) (sum rest : Asset)
        → find h.self c.balances ≡ some b
        → a.add b.balance quantity ≡ ok sum
        → a.sub quantity c.config.ingress_bridge_fee ≡ ok rest
        → (b : BalanceWithDust) × (sum : Asset) × (rest : Asset) × (find h.self c.balances ≡ some b)
          × (a.add b.balance quantity ≡ ok sum)
          × (a.sub quantity c.config.ingress_bridge_fee ≡ ok rest)
          × (ltb_ℤ (pos 0) rest.amount ≡ true)
          × (find h.self c'.balances ≡ some (record b { balance = sum }))
          × (find h.self c.nextnonces ≡ some d.txn.nonce)
          × (d.txn.value ≡ to_uint64 rest.amount * unit % 2 ^ 256)
    with_rest b sum rest found added taken =
        let paid = record c { balances = put h.self (record b { balance = sum }) c.balances } in
        elim (Result-cases (record_fee a p h paid)) [
          | inr (m, failed) ↦ absurd (ground (arith, found, added, taken, failed))
          | inl (c2, done) ↦
              let kept = record_fee_keeps a p h paid c2 done in
              let put_back = find-put h.self h.self (record b { balance = sum }) c.balances in
              (
                b,
                sum,
                rest,
                found,
                added,
                taken,
                ground (arith, found, added, taken, done),
                ground (arith, found, added, taken, done, u, kept, put_back),
                ground (arith, found, added, taken, done, u, kept),
                ground (arith, found, added, taken, done, u),
              )
        ]

-- The amount is not negative and at most asset::max_amount, so the product with the unit is exact.
value_exact :
    (n u : ℕ) → n ≤ max_amount → u ≤ 1000000000000000000 → to_uint64 (pos n) * u % 2 ^ 256 ≡ n * u
value_exact n u hn hu =
    let fits : n % two_64 ≡ n = omega arith in rw fits (omega (arith, mul-le-mul hn hu))

positive :
    (r q f : ℤ)
    → r ≡ q -ℤ f
    → ltb_ℤ (pos 0) r ≡ true
    → q ≤ℤ pos max_amount
    → pos 0 ≤ℤ f
    → (n : ℕ) × (r ≡ pos n) × (0 < n) × (n ≤ max_amount)
unfolding ◌-ℤ◌
positive (pos n) q f e h hq hf = (n, refl, ground arith, ground arith)
positive (negsuc n) q f e h hq hf = absurd (ground arith)

-- A bridge transfer into the EVM that goes through credits its whole quantity to the balance of the
-- contract, leaves the dust of that balance, and makes a transaction with the contract's next nonce
-- whose value is the quantity less the ingress fee, which is more than nothing, exact in EVM units;
-- the quantity is at most asset::max_amount, and the fee not negative.
pub handle_evm_transfer-value :
    (a : AssetOps) (p : Parsing) (h : Host) (quantity : Asset) (memo : Bytes) (c c' : Contract)
    (d : Dispatch)
    → IsToken (token_symbol c)
    → quantity.amount ≤ℤ pos max_amount
    → pos 0 ≤ℤ c.config.ingress_bridge_fee.amount
    → handle_evm_transfer a p h quantity memo c ≡ ok (c', d)
    → (b : BalanceWithDust) × (b' : BalanceWithDust) × (rest : ℕ) × (find h.self c.balances
        ≡ some b)
      × (find h.self c'.balances ≡ some b')
      × (b'.balance.amount ≡ b.balance.amount +ℤ quantity.amount)
      × (b'.dust ≡ b.dust)
      × (find h.self c.nextnonces ≡ some d.txn.nonce)
      × (quantity.amount -ℤ c.config.ingress_bridge_fee.amount ≡ pos rest)
      × (0 < rest)
      × (d.txn.value ≡ rest * unit_of (token_symbol c))
unfolding handle_evm_transfer get_minimum_natively_representable
handle_evm_transfer-value a p h quantity memo c c' d token hq hf e =
    let fee = process_prices_keeps h c in
    let tables = process_prices_balances h c in
    let unit =
      ap (λ (f : Asset). pow10_const (pos evm_precision -ℤ pos f.symbol.precision)) fee
      ∙ exponent (token_symbol c) token in
    let (b, sum, rest, found, added, taken, more, put_back, nonce, value) =
      bridge_in_parts a p h _ quantity memo (unit_of (token_symbol c)) (process_prices h c) c' d
        unit e in
    let less =
      (a.sub-eq-ok quantity (process_prices h c).config.ingress_bridge_fee rest taken).2
      ∙ ap (λ (f : Asset). quantity.amount -ℤ f.amount) fee in
    let (n, is_n, above, within) = positive rest.amount _ _ less more hq hf in
    (
      b,
      record b { balance = sum },
      n,
      sym (ap (find h.self) tables.0) ∙ found,
      put_back,
      (a.add-eq-ok b.balance quantity sum added).2,
      refl,
      sym (ap (find h.self) tables.1) ∙ nonce,
      sym less ∙ is_n,
      above,
      value
          ∙ ap (λ (r : ℤ). to_uint64 r * unit_of (token_symbol c) % 2 ^ 256) is_n
          ∙ value_exact n (unit_of (token_symbol c)) within (unit_bounds (token_symbol c)),
    )

-- A transfer to an opened account that goes through adds its quantity to the balance of the account
-- that the memo names, whose row was there, and leaves its dust, the balance of everyone else, all
-- nonces and the contract's EVM total as they were.
pub handle_account_transfer-credits :
    (a : AssetOps) (p : Parsing) (h : Host) (quantity : Asset) (memo : Bytes) (owner who : ℕ)
    (c c' : Contract)
    → p.names.name_of memo ≡ ok owner
    → handle_account_transfer a p h quantity memo c ≡ ok c'
    → (b : BalanceWithDust) × (b' : BalanceWithDust) × (find owner c.balances ≡ some b)
      × (b'.balance.amount ≡ b.balance.amount +ℤ quantity.amount)
      × (b'.dust ≡ b.dust)
      × (find who c'.balances ≡ (if who == owner then some b' else find who c.balances))
      × (c'.nextnonces ≡ c.nextnonces)
      × (c'.inevm ≡ c.inevm)
unfolding handle_account_transfer process_prices
handle_account_transfer-credits a p h quantity memo owner who c c' named e =
    elim (Option-cases (find owner c.balances)) [
      | inl missing ↦ absurd (ground (arith, named, missing))
      | inr (b, found) ↦ elim (Result-cases (a.add b.balance quantity)) [
        | inr (m, failed) ↦ absurd (ground (arith, named, found, failed))
        | inl (sum, added) ↦ (
          b,
          record b { balance = sum },
          found,
          (a.add-eq-ok b.balance quantity sum added).2,
          refl,
          ground (
            arith,
            named,
            found,
            added,
            find-put who owner (record b { balance = sum }) c.balances,
          ),
          ground (arith, named, found, added),
          ground (arith, named, found, added),
        )
      ]
    ]
