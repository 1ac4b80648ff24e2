-- ===== src/Socket/Address/Print/Cases.antt =====
-- What `to_string` and `nameinfo` do in each case.
use unisock.Prelude.{
  ℕ, ◌+◌, ◌*◌, ◌%◌, ◌<◌, ◌≤◌, ◌≡◌, ◌≢◌, ◌⊎◌, refl, inl, inr, [], ◌∷◌, map, take, drop, get_or,
  length, arith, false, sym, Bool-cases, ==_iff, ◌/◌, Option, ok, fault, null_pointer, ◌==◌,
  Returns, returns,
}
use unisock.Socket.System.{Bytes, System, af_unspec, af_unix, af_inet, af_inet6}
use unisock.Socket.Address.{
  NameinfoResult, Attempt, retry, address_family_of, found, broken, exhausted, size, family, to,
  nameinfo, name_found, get_ip,
}
use unisock.Socket.Address.Ports.{port_of}
use unisock.Socket.Address.Print.{
  inet, unkown, unspec, unknown, signed_char, sin_port, host_of, inet_text, inet6_text, to_string,
}

-- What `nameinfo` may leave.
abbrev Named : Bytes → NameinfoResult × Bytes → Type 0
Named hostname r =
    ((r.0 ≡ NameinfoResult.success) × (1 ≤ length r.1))
    ⊎ ((r.0 ≢ NameinfoResult.success) × (r.0 ≢ NameinfoResult.name_too_big) × (r.1 ≡ hostname))

module _ {K : Type 0} (sys : System K) where
  name_found-Named :
      (hostname : Bytes) (a : Attempt Bytes) → Named hostname (name_found sys hostname a)
  unfolding name_found
  name_found-Named hostname broken = inr ((λ e. cc e), (λ e. cc e), refl)
  name_found-Named hostname exhausted = inr ((λ e. cc e), (λ e. cc e), refl)
  name_found-Named hostname (found []) = inr ((λ e. cc e), (λ e. cc e), refl)
  name_found-Named hostname (found (c ∷ text)) = elim (Bool-cases (c == 0)) [
    | inl end ↦ rw end (inr ((λ e. cc e), (λ e. cc e), refl))
    | inr some_text ↦ rw some_text (inl (refl, omega arith))
  ]

  -- `nameinfo` succeeds with a name that is not empty, or returns ERROR or UNAVAILABLE, never NAME_TOO_BIG,
  -- and leaves the name that it was given as it is.
  nameinfo_cases :
      (hostname addr : Bytes) (addr_len : ℕ) (k : K)
      → let r = nameinfo sys hostname addr addr_len k in
        ((r.0 ≡ NameinfoResult.success) × (1 ≤ length r.1))
        ⊎ ((r.0 ≢ NameinfoResult.success) × (r.0 ≢ NameinfoResult.name_too_big) × (r.1 ≡ hostname))
  unfolding nameinfo
  nameinfo_cases hostname addr addr_len k =
      name_found-Named hostname (retry (sys.getnameinfo addr addr_len 128) 3 k).0

-- The families that `to_string` names.
abbrev IsOther : ℕ → Type 0
IsOther fam = (fam ≢ af_inet) × (fam ≢ af_inet6) × (fam ≢ af_unix) × (fam ≢ af_unspec)

sin_port-swaps :
    (a : Bytes)
    → get_or a 2 0 < 256
    → get_or a 3 0 < 256
    → sin_port a ≡ port_of a % 256 * 256 + port_of a / 256
unfolding sin_port port_of
sin_port-swaps a l m = omega arith

module _ {K : Type 0} (sys : System K) (inet_ntop : ℕ → Bytes → ℕ → Option Bytes) where
  -- `to_string` of an IPv4 address writes its port with the two bytes exchanged; of an IPv6 address it
  -- reads the port through a null pointer; of an address of AF_UNIX it writes that the family is not
  -- known, as for the families that it does not name; of one of AF_UNSPEC it writes the size.
  pub to_string_cases :
      (a : Bytes) (k : K)
      → get_or a 2 0 < 256
      → get_or a 3 0 < 256
      → let h = host_of sys inet_ntop a k in
        let r = to_string sys inet_ntop a k in
        ((family a ≡ af_inet)
          × (r
              ≡ ok
                  (inet
                    (size a)
                    (get_ip inet_ntop a)
                    h.0
                    (port_of a % 256 * 256 + port_of a / 256)
                    (map signed_char (take 8 (drop 8 a))))
                  h.1))
        ⊎ ((family a ≡ af_inet6) × (r ≡ fault null_pointer))
        ⊎ ((family a ≡ af_unix) × (r ≡ ok (unkown af_unix) k))
        ⊎ ((family a ≡ af_unspec) × (r ≡ ok (unspec (size a)) k))
        ⊎ (IsOther (family a) × (r ≡ ok (unknown (family a)) k))
  unfolding to_string inet_text inet6_text to address_family_of
  to_string_cases a k l m = elim (Bool-cases (family a == af_inet)) [
    | inl v4 ↦ inl ((==_iff (family a) 2).0 v4, rw (sym (sin_port-swaps a l m)) (ground arith))
    | inr not4 ↦ elim (Bool-cases (family a == af_inet6)) [
      | inl v6 ↦ inr (inl ((==_iff (family a) 30).0 v6, ground arith))
      | inr not6 ↦ elim (Bool-cases (family a == af_unix)) [
        | inl local ↦ inr (inr (inl ((==_iff (family a) 1).0 local, ground arith)))
        | inr not_local ↦ elim (Bool-cases (family a == af_unspec)) [
          | inl unnamed ↦ inr (inr (inr (inl ((==_iff (family a) 0).0 unnamed, ground arith))))
          | inr named ↦ inr (
              inr (
                inr (
                  inr (
                    (differs 2 not4, differs 30 not6, differs 1 not_local, differs 0 named),
                    ground arith,
                  ))))
        ]
      ]
    ]
  ]
    where
      differs : (n : ℕ) → (family a == n) ≡ false → family a ≢ n
      differs n miss e = let same = (==_iff (family a) n).1 e in cc (miss, same)

  -- `to_string` of an IPv4 address returns.
  pub to_string-Returns :
      (a : Bytes) (k : K)
      → family a ≡ af_inet
      → Returns (λ _ _. Unit {0}) (to_string sys inet_ntop a k)
  unfolding to_string inet_text to address_family_of
  to_string-Returns a k e = rw e (returns tt)
