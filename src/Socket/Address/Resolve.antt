-- ===== src/Socket/Address/Resolve.antt =====
-- `addrinfo` and `nameinfo`: when they retry, how often, and what they write.
use unisock.Prelude.{
  ℕ, zero, suc, ◌≤◌, ◌<◌, ◌≡◌, ◌≢◌, refl, ap, ◌∙◌, ◌⊎◌, inl, inr, Option, none, some, length, take,
  drop, ltb, arith, length-append, length-take, length-drop, Bool-cases, ltb→le,
}
use unisock.Socket.System.{Bytes, AddrInfo, Resolved, resolved, eai_again, refused, System}
use unisock.Socket.Address.{
  AddrinfoResult, Attempt, found, broken, exhausted, retry, store_found, addrinfo, overlay,
}

module _ {A K : Type 0} (call : K → Resolved × A × K) where
  -- The state after some calls.
  abbrev pub state_after : ℕ → K → K
  state_after zero k = k
  state_after (suc n) k = state_after n (call k).2

  -- The next calls all say EAI_AGAIN.
  abbrev pub AllAgain : ℕ → K → Type 0
  AllAgain zero k = Unit
  AllAgain (suc n) k = ((call k).0 ≡ eai_again) × AllAgain n (call k).2

  -- How the loop ends at the call that decides it.
  abbrev pub outcome : Resolved → A → K → Attempt A × K
  outcome resolved a k = (found a, k)
  outcome refused a k = (broken, k)
  outcome eai_again a k = (exhausted, k)

  retry_exhausted : (n : ℕ) (k : K) → AllAgain n k → retry call n k ≡ (exhausted, state_after n k)
  unfolding retry
  retry_exhausted zero k h = refl
  retry_exhausted (suc n) k h = rw (h.0, retry) (retry_exhausted n (call k).2 h.1)

  retry_first :
      (n : ℕ) (k : K) (r : Resolved)
      → (call k).0 ≡ r
      → r ≢ eai_again
      → retry call (suc n) k ≡ outcome r (call k).1 (call k).2
  unfolding retry
  retry_first n k resolved e ne = rw (e, retry)
  retry_first n k refused e ne = rw (e, retry)
  retry_first n k eai_again e ne = absurd (ne refl)

  retry_decided :
      (m n : ℕ) (k : K)
      → m < n
      → AllAgain m k
      → (call (state_after m k)).0 ≢ eai_again
      → retry call n k
        ≡ outcome (call (state_after m k)).0 (call (state_after m k)).1 (call (state_after m k)).2
  retry_decided m zero k lt h ne = elim lt [ ]
  retry_decided zero (suc n) k lt h ne = retry_first n k (call k).0 refl ne
  retry_decided (suc m) (suc n) k lt h ne =
      again-step h.0 ∙ retry_decided m n (call k).2 (omega arith) h.1 ne
    where
      again-step : (call k).0 ≡ eai_again → retry call (suc n) k ≡ retry call n (call k).2
      again-step e = unfold retry in rw (e, retry)

-- What the loop found was returned by a call.
abbrev pub FoundIs {ι} : {A : Type 0} → (A → Type ι) → Attempt A → Type ι
FoundIs P (found a) = P a
FoundIs P broken = Unit
FoundIs P exhausted = Unit

module _ {A K : Type 0} (call : K → Resolved × A × K) (P : A → Type 0)
    (all : (k : K) → P (call k).1) where
  retry_step-FoundIs :
      (n : ℕ) (k : K) (r : Resolved)
      → (call k).0 ≡ r
      → FoundIs P (retry call n (call k).2).0
      → FoundIs P (retry call (suc n) k).0
  unfolding retry
  retry_step-FoundIs n k resolved e ih = rw (e, retry) (all k)
  retry_step-FoundIs n k refused e ih = rw (e, retry) tt
  retry_step-FoundIs n k eai_again e ih = rw (e, retry) ih

  pub retry-FoundIs : (n : ℕ) (k : K) → FoundIs P (retry call n k).0
  retry-FoundIs zero k = unfold retry in tt
  retry-FoundIs (suc n) k = retry_step-FoundIs n k (call k).0 refl (retry-FoundIs n (call k).2)

module _ {K : Type 0} (sys : System K) (hostname : Bytes) (fam : ℕ) where
  abbrev pub lookup : K → Resolved × Option AddrInfo × K
  lookup = sys.getaddrinfo hostname fam

  -- When `getaddrinfo` says EAI_AGAIN three times, `addrinfo` gives up: UNAVAILABLE after exactly three
  -- calls, with the address as it was.
  pub addrinfo_exhausted :
      (address : Bytes) (k : K)
      → AllAgain lookup 3 k
      → addrinfo sys address hostname fam k
        ≡ (AddrinfoResult.unavailable, address, state_after lookup 3 k)
  unfolding addrinfo store_found
  addrinfo_exhausted address k h = rw (retry_exhausted lookup 3 k h)

  -- When fewer than three calls say EAI_AGAIN and the next one resolves the name, with a result that is
  -- not null and an address of at most 128 bytes, `addrinfo` makes no further call and succeeds, and
  -- copies that address to the front of the storage.
  pub addrinfo_resolved :
      (address : Bytes) (m : ℕ) (k k' : K) (res : AddrInfo)
      → m < 3
      → AllAgain lookup m k
      → lookup (state_after lookup m k) ≡ (resolved, some res, k')
      → res.ai_addrlen ≤ 128
      → addrinfo sys address hostname fam k
        ≡ (AddrinfoResult.success, overlay res.ai_addr res.ai_addrlen address, k')
  unfolding addrinfo store_found
  addrinfo_resolved address m k k' res lt h e fits =
      rw (retry_decided lookup m 3 k lt h (λ x. cc (ap (λ t. t.0) e))) (rw e (ground arith))

  -- `ai_addrlen` is the size of `ai_addr`.
  abbrev pub IsSized : Option AddrInfo → Type 0
  IsSized none = Unit
  IsSized (some res) = res.ai_addrlen ≤ length res.ai_addr

  store_found-length :
      (address : Bytes) (a : Attempt (Option AddrInfo))
      → length address ≡ 128
      → FoundIs IsSized a
      → (length (store_found sys address a).1 ≡ 128)
        × (((store_found sys address a).0 ≡ AddrinfoResult.success)
            ⊎ ((store_found sys address a).1 ≡ address))
  unfolding store_found
  store_found-length address broken l f = (l, inr refl)
  store_found-length address exhausted l f = (l, inr refl)
  store_found-length address (found none) l f = (l, inr refl)
  store_found-length address (found (some res)) l f = elim (Bool-cases (ltb 128 res.ai_addrlen)) [
    | inl big ↦ rw big (l, inr refl)
    | inr fits ↦ rw fits (
      omega (
        arith,
        length-append (take res.ai_addrlen res.ai_addr) (drop res.ai_addrlen address),
        length-take res.ai_addrlen res.ai_addr f,
        length-drop res.ai_addrlen address,
        ltb→le 128 res.ai_addrlen fits,
      ),
      inl refl,
    )
  ]

  -- Whatever the resolver answers, where `ai_addrlen` is the size of what it points to, `addrinfo`
  -- writes inside the 128 bytes of the storage, and on every result but SUCCESS it writes nothing.
  pub addrinfo-storage :
      (address : Bytes) (k : K)
      → ((j : K) → IsSized (lookup j).1)
      → length address ≡ 128
      → let r = addrinfo sys address hostname fam k in
        (length r.1 ≡ 128) × ((r.0 ≡ AddrinfoResult.success) ⊎ (r.1 ≡ address))
  unfolding addrinfo
  addrinfo-storage address k sized l =
      store_found-length address (retry lookup 3 k).0 l (retry-FoundIs lookup IsSized sized 3 k)
