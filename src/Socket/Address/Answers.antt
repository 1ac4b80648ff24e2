-- ===== src/Socket/Address/Answers.antt =====
-- What `addrinfo` keeps of the resolver's answers: the family that was asked for.
use unisock.Prelude.{
  ℕ, zero, suc, ◌≤◌, ◌≡◌, refl, ◌∙◌, inl, inr, Option, none, some, [], ◌∷◌, length, ltb, arith,
  Bool-cases,
}
use unisock.Socket.System.{Bytes, AddrInfo, Resolved, resolved, eai_again, refused, System}
use unisock.Socket.Address.{
  AddrinfoResult, AddressType, sockaddr, sockaddr_in, sockaddr_in6, other_sockaddr, Attempt, found,
  broken, exhausted, retry, store_found, addrinfo, overlay, family, address_family_of, to, set_port,
  write_port,
}
use unisock.Socket.Address.Resolve.{FoundIs, retry-FoundIs, lookup}

-- An answer with the family `fam`, of at least the two bytes that hold it.
abbrev pub AnswersFamily : ℕ → Option AddrInfo → Type 0
AnswersFamily fam none = Unit
AnswersFamily fam (some res) =
    (2 ≤ res.ai_addrlen) × (2 ≤ length res.ai_addr) × (family res.ai_addr ≡ fam)

family-overlay :
    (src dst : Bytes) (n : ℕ) → 2 ≤ n → 2 ≤ length src → family (overlay src n dst) ≡ family src
unfolding family overlay
family-overlay [] dst n l m = absurd (omega arith)
family-overlay (x ∷ []) dst n l m = absurd (omega arith)
family-overlay (x ∷ y ∷ src) dst zero l m = absurd (omega arith)
family-overlay (x ∷ y ∷ src) dst (suc zero) l m = absurd (omega arith)
family-overlay (x ∷ y ∷ src) dst (suc (suc n)) l m = refl

-- A pointer that `to` gives for the family of the address is written through.
pub set_port-family :
    (t : AddressType) (port : ℕ) (a : Bytes)
    → family a ≡ address_family_of t
    → set_port t port a ≡ some (write_port port a)
unfolding set_port to
set_port-family sockaddr port a e = refl
set_port-family sockaddr_in port a e = ground arith
set_port-family sockaddr_in6 port a e = ground arith
set_port-family other_sockaddr port a e = ground arith

module _ {K : Type 0} (sys : System K) (hostname : Bytes) (fam : ℕ) where
  store_found-family :
      (address : Bytes) (a : Attempt (Option AddrInfo))
      → FoundIs (AnswersFamily fam) a
      → (store_found sys address a).0 ≡ AddrinfoResult.success
      → family (store_found sys address a).1 ≡ fam
  unfolding store_found
  store_found-family address broken f e = cc e
  store_found-family address exhausted f e = cc e
  store_found-family address (found none) f e = cc e
  store_found-family address (found (some res)) f e = elim (Bool-cases (ltb 128 res.ai_addrlen)) [
    | inl big ↦ let e' = rw big at e in cc e'
    | inr fits ↦ rw fits (family-overlay res.ai_addr address res.ai_addrlen f.0 f.1 ∙ f.2)
  ]

  -- An address that `addrinfo` reports as found has the family that was asked for.
  pub addrinfo-family :
      (address : Bytes) (k : K)
      → ((j : K) → AnswersFamily fam (lookup sys hostname fam j).1)
      → (addrinfo sys address hostname fam k).0 ≡ AddrinfoResult.success
      → family (addrinfo sys address hostname fam k).1 ≡ fam
  unfolding addrinfo
  addrinfo-family address k answers e =
      store_found-family address (retry (lookup sys hostname fam) 3 k).0
        (retry-FoundIs (lookup sys hostname fam) (AnswersFamily fam) answers 3 k) e

module _ {A K : Type 0} (call : K → Resolved × A × K) (P : K → Type 0)
    (keeps : (k : K) → P k → P (call k).2) where
  retry_step_keeps :
      (n : ℕ) (k : K) (r : Resolved)
      → (call k).0 ≡ r
      → P (call k).2
      → P (retry call n (call k).2).1
      → P (retry call (suc n) k).1
  unfolding retry
  retry_step_keeps n k resolved e now later = rw (e, retry) now
  retry_step_keeps n k refused e now later = rw (e, retry) now
  retry_step_keeps n k eai_again e now later = rw (e, retry) later

  pub retry_keeps : (n : ℕ) (k : K) → P k → P (retry call n k).1
  retry_keeps zero k p = unfold retry in p
  retry_keeps (suc n) k p =
      retry_step_keeps n k (call k).0 refl (keeps k p) (retry_keeps n (call k).2 (keeps k p))
