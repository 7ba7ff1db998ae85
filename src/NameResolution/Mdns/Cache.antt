-- ===== src/NameResolution/Mdns/Cache.antt =====
-- When an address is in the cache of nameresolution/mdns/mdns.go, and until when.
use dapr_components_contrib.Prelude.{
  ℕ, suc, ◌+◌, ◌<◌, ◌≤◌, Text, text_eq, text_eq_iff, Option, none, some, List, [], ◌∷◌, Bool-cases,
  false, ltb, if◌then◌else◌, ◌≡◌, ◌≢◌, refl, subst, arith, inl, inr,
}
use dapr_components_contrib.Dict.Laws.{text_eq-sym}
use dapr_components_contrib.NameResolution.Mdns.{
  Address, AddressList, address_ttl, unexpired, expire, renew, add,
}

-- when the address with the ip expires; none if it is not there
unfoldable pub expiry : Text → List Address → Option ℕ
unfolding text_eq
expiry ip [] = none
expiry ip (addr ∷ rest) = if text_eq addr.ip ip then some addr.expires_at else expiry ip rest

-- No address has the ip; no two have the same.
abbrev pub IsMissing : Text → List Address → Type 0
IsMissing ip [] = Unit
IsMissing ip (addr ∷ rest) = (text_eq addr.ip ip ≡ false) × IsMissing ip rest

abbrev pub OneEach : List Address → Type 0
OneEach [] = Unit
OneEach (addr ∷ rest) = IsMissing addr.ip rest × OneEach rest

expiry-renew :
    (ip : Text) (now : ℕ) (j : Text) (as_ : List Address)
    → expiry j (renew ip now as_)
      ≡ (if text_eq ip j then some (now + address_ttl) else expiry j as_)
unfolding expiry renew
expiry-renew ip now j [] = refl
expiry-renew ip now j (addr ∷ rest) = ground (
  arith,
  text_eq_iff addr.ip ip,
  text_eq_iff addr.ip j,
  text_eq_iff ip j,
  expiry-renew ip now j rest,
)

IsMissing-renew :
    (j ip : Text) (now : ℕ) (as_ : List Address)
    → text_eq ip j ≡ false
    → IsMissing j as_
    → IsMissing j (renew ip now as_)
unfolding renew
IsMissing-renew j ip now [] n m = (n, tt)
IsMissing-renew j ip now (addr ∷ rest) n m = ground (arith, IsMissing-renew j ip now rest n)

OneEach-renew :
    (ip : Text) (now : ℕ) (as_ : List Address) → OneEach as_ → OneEach (renew ip now as_)
unfolding renew
OneEach-renew ip now [] o = (tt, tt)
OneEach-renew ip now (addr ∷ rest) o = elim (Bool-cases (text_eq addr.ip ip)) [
  | inl e ↦ rw e (o.0, o.1)
  | inr e ↦ rw e (
    IsMissing-renew addr.ip ip now rest (text_eq-sym addr.ip ip e) o.0,
    OneEach-renew ip now rest o.1,
  )
]

-- Adding an ip gives it a full time to live, whether it is new or not, and leaves the times of the others;
-- a list that holds each ip once stays so.
pub add_lem :
    (ip : Text) (now : ℕ) (a : AddressList)
    → OneEach a.addresses
    → OneEach (add ip now a).addresses
      × ((j : Text)
          → expiry j (add ip now a).addresses
            ≡ (if text_eq ip j then some (now + address_ttl) else expiry j a.addresses))
unfolding add
add_lem ip now a o = (OneEach-renew ip now a.addresses o, λ j. expiry-renew ip now j a.addresses)

IsMissing-expiry : (j : Text) (as_ : List Address) → IsMissing j as_ → expiry j as_ ≡ none
unfolding expiry
IsMissing-expiry j [] m = refl
IsMissing-expiry j (addr ∷ rest) m = rw m.0 (IsMissing-expiry j rest m.1)

module _ (clock : ℕ → ℕ) (from until : ℕ)
    (within : (i : ℕ) → (from ≤ clock i) × (clock i ≤ until)) where
  IsMissing-unexpired :
      (j : Text) (i : ℕ) (as_ : List Address)
      → IsMissing j as_
      → IsMissing j (unexpired clock i as_)
  unfolding unexpired
  IsMissing-unexpired j i [] m = tt
  IsMissing-unexpired j i (addr ∷ rest) m = elim (Bool-cases (ltb (clock i) addr.expires_at)) [
    | inl e ↦ rw e (m.0, IsMissing-unexpired j (suc i) rest m.1)
    | inr e ↦ rw e (IsMissing-unexpired j (suc i) rest m.1)
  ]

  -- what expire makes of the time of an ip
  abbrev pub IsExpired : Option ℕ → Option ℕ → Type 0
  IsExpired none after = after ≡ none
  IsExpired (some t) after =
      (t ≤ from → after ≡ none) × (until < t → after ≡ some t) × ((after ≢ none) → after ≡ some t)

  expiry-unexpired :
      (j : Text) (i : ℕ) (as_ : List Address)
      → OneEach as_
      → IsExpired (expiry j as_) (expiry j (unexpired clock i as_))
  unfolding expiry unexpired
  expiry-unexpired j i [] o = refl
  expiry-unexpired j i (addr ∷ rest) o = elim (Bool-cases (text_eq addr.ip j)) [
    | inl e ↦
        let m = IsMissing-expiry j (unexpired clock (suc i) rest) (
          IsMissing-unexpired j (suc i) rest
            (subst (λ k. IsMissing k rest) ((text_eq_iff addr.ip j).0 e) o.0)) in
        elim (Bool-cases (ltb (clock i) addr.expires_at)) [
          | inl t ↦ rw (e, t, e) (λ h. absurd (ground (arith, t, within i)), λ _. refl, λ _. refl)
          | inr t ↦
              rw (e, t, m)
                (λ _. refl, λ h. absurd (ground (arith, t, within i)), λ n. absurd (n refl))
        ]
    | inr e ↦
        let ih = expiry-unexpired j (suc i) rest o.1 in
        elim (Bool-cases (ltb (clock i) addr.expires_at)) [
          | inl t ↦ rw (e, t, e) ih
          | inr t ↦ rw (e, t) ih
        ]
  ]

  OneEach-unexpired : (i : ℕ) (as_ : List Address) → OneEach as_ → OneEach (unexpired clock i as_)
  unfolding unexpired
  OneEach-unexpired i [] o = tt
  OneEach-unexpired i (addr ∷ rest) o = elim (Bool-cases (ltb (clock i) addr.expires_at)) [
    | inl e ↦
        rw e (IsMissing-unexpired addr.ip (suc i) rest o.0, OneEach-unexpired (suc i) rest o.1)
    | inr e ↦ rw e (OneEach-unexpired (suc i) rest o.1)
  ]

  -- Evicting, while the clock goes from one time to another, takes out the addresses that expire up to the
  -- first, keeps those that expire after the second, and changes no time; a list that holds each ip once
  -- stays so.
  pub expire_lem :
      (a : AddressList)
      → OneEach a.addresses
      → OneEach (expire clock a).addresses
        × ((j : Text) → IsExpired (expiry j a.addresses) (expiry j (expire clock a).addresses))
  unfolding expire
  expire_lem a o = (OneEach-unexpired 0 a.addresses o, λ j. expiry-unexpired j 0 a.addresses o)
