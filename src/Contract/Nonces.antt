-- ===== src/Contract/Nonces.antt =====
-- src/actions.cpp: the nonces of the accounts that call through the contract, and what changes them.
use eos_evm_contract.Prelude.{ℕ, ◌+◌, ◌%◌, ◌≤◌, ◌<◌, ◌≡◌, ok, arith, value_or, ap}
use eos_evm_contract.Prelude.Int.{two_64}
use eos_evm_contract.Table.{Table, find, find-put, find-erase}
use eos_evm_contract.Balance.{Asset}
use eos_evm_contract.Contract.{Host, Contract}
use eos_evm_contract.Contract.Accounts.{
  open_internal_balance, open_account, close_account, get_and_increment_nonce,
}
use eos_evm_contract.Contract.Bridge.{bridgereg}

-- The nonce that an account uses next; an account with no row starts at 0.
abbrev pub nonce_of : ℕ → Contract → ℕ
nonce_of account c = value_or (find account c.nextnonces) 0

-- No account has used the largest uint64_t.
abbrev pub NoncesFit : Contract → Type 0
NoncesFit c = (owner : ℕ) → nonce_of owner c + 1 < two_64

-- No nonce is lower afterwards.
abbrev pub Advances : Contract → Contract → Type 0
Advances c c' = NoncesFit c → (account : ℕ) → nonce_of account c ≤ nonce_of account c'

-- What an action that takes a nonce of an account leaves of the nonces.
pub record Takes (account n : ℕ) (c c' : Contract) : Type 0 where
  pub after : Contract
  pub taken : get_and_increment_nonce account c ≡ ok (after, n)
  pub rest : c'.nextnonces ≡ after.nextnonces

module _ (account : ℕ) where
  pub nonce_of-open :
      (owner : ℕ) (c : Contract)
      → nonce_of account (open_internal_balance owner c) ≡ nonce_of account c
  unfolding open_internal_balance
  nonce_of-open owner c = ground (arith, find-put account owner 0 c.nextnonces)

  pub nonce_of-close :
      (h : Host) (owner : ℕ) (c c' : Contract)
      → close_account h owner c ≡ ok c'
      → nonce_of account c' ≡ nonce_of account c
  unfolding close_account
  nonce_of-close h owner c c' e = ground (arith, find-erase account owner c.nextnonces)

  pub nonce_of-take :
      (owner n : ℕ) (c c' : Contract)
      → get_and_increment_nonce owner c ≡ ok (c', n)
      → n + 1 < two_64
      → (nonce_of owner c ≡ n)
        × (nonce_of owner c' ≡ n + 1)
        × (nonce_of account c ≤ nonce_of account c')
  unfolding get_and_increment_nonce
  nonce_of-take owner n c c' e h = ground (
    arith,
    find-put account owner ((n + 1) % two_64) c.nextnonces,
    find-put owner owner ((n + 1) % two_64) c.nextnonces,
  )

  pub nonce_of-opened :
      (h : Host) (owner : ℕ) (c c' : Contract)
      → open_account h owner c ≡ ok c'
      → nonce_of account c' ≡ nonce_of account c
  unfolding open_account open_internal_balance
  nonce_of-opened h owner c c' e = ground (arith, nonce_of-open owner c)

  pub nonce_of-register :
      (h : Host) (receiver handler : ℕ) (fee : Asset) (c c' : Contract)
      → bridgereg h receiver handler fee c ≡ ok c'
      → nonce_of account c' ≡ nonce_of account c
  unfolding bridgereg open_account open_internal_balance
  nonce_of-register h receiver handler fee c c' e = ground (arith, nonce_of-open receiver c)

pub nonce_of-taken :
    (owner n : ℕ) (c c' : Contract)
    → get_and_increment_nonce owner c ≡ ok (c', n)
    → nonce_of owner c ≡ n
unfolding get_and_increment_nonce
nonce_of-taken owner n c c' e = ground arith

nonce_of-same :
    (account : ℕ) (c c' : Contract)
    → c'.nextnonces ≡ c.nextnonces
    → nonce_of account c' ≡ nonce_of account c
nonce_of-same account c c' e = ap (λ (t : Table ℕ). value_or (find account t) 0) e

pub same-Advances : (c c' : Contract) → c'.nextnonces ≡ c.nextnonces → Advances c c'
same-Advances c c' e fits account = omega (arith, nonce_of-same account c c' e)

-- What changes no row of the table before or after adds nothing.
pub before-Advances :
    (c d c' : Contract) → d.nextnonces ≡ c.nextnonces → Advances d c' → Advances c c'
before-Advances c d c' e later fits account =
    let same = λ (owner : ℕ). nonce_of-same owner c d e in
    let moved = later (λ owner. omega (arith, same owner, fits owner)) account in
    omega (arith, same account, moved)

pub after-Advances :
    (c d c' : Contract) → Advances c d → c'.nextnonces ≡ d.nextnonces → Advances c c'
after-Advances c d c' first e fits account =
    omega (arith, first fits account, nonce_of-same account d c' e)

pub take-Advances :
    (owner n : ℕ) (c c' : Contract) → get_and_increment_nonce owner c ≡ ok (c', n) → Advances c c'
take-Advances owner n c c' e fits account =
    let small : n + 1 < two_64 = omega (arith, nonce_of-taken owner n c c' e, fits owner) in
    (nonce_of-take account owner n c c' e small).2
