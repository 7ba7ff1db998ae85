-- ===== src/NameResolution/Mdns/RoundRobin.antt =====
-- The turns that the addresses of an app take (nameresolution/mdns/mdns.go).
use native.Mathlib.Nat.{mod-lt, mod-eq_of_lt, mod-add-mod, add-mod_right}
use dapr_components_contrib.Prelude.{
  ℕ, zero, suc, ◌+◌, ◌-◌, ◌%◌, ◌^◌, ◌<◌, ◌≤◌, Text, Option, none, some, List, [], ◌∷◌, length,
  get_elem?, Bool-cases, false, leb, ◌==◌, ◌≡◌, refl, ap, sym, ◌∙◌, arith, inl, inr,
}
use dapr_components_contrib.NameResolution.Mdns.{Address, AddressList, max_uint32, next}

-- the answers of k calls of next, one after the other
unfoldable pub nexts : ℕ → AddressList → List (Option Text)
unfolding next
nexts zero a = []
nexts (suc k) a = (next a).1 ∷ nexts k (next a).0

-- the ip of the address with the index
abbrev pub ip_at : List Address → ℕ → Option Text
ip_at [] i = none
ip_at (addr ∷ rest) zero = some addr.ip
ip_at (addr ∷ rest) (suc i) = ip_at rest i

ip_at-get_elem? :
    (as_ : List Address) (i : ℕ)
    → elim (get_elem? as_ i) [ none ↦ none | some addr ↦ some addr.ip ] ≡ ip_at as_ i
ip_at-get_elem? [] i = refl
ip_at-get_elem? (addr ∷ rest) zero = refl
ip_at-get_elem? (addr ∷ rest) (suc i) = ip_at-get_elem? rest i

-- The call at which the address with index j comes up, counted from the counter c
turn : (c l j : ℕ) → j < l → (i : ℕ) × (i < l) × ((c + i) % l ≡ j)
turn c l j h =
    let r = c % l in
    let r_lt : r < l = mod-lt c (omega (arith, h)) in
    elim (Bool-cases (leb r j)) [
      | inl t ↦
          let n : r + (j - r) ≡ j = ground (arith, t) in
          (
            j - r,
            omega (arith, h),
            sym (mod-add-mod c l (j - r)) ∙ ap (λ m. m % l) n ∙ mod-eq_of_lt h,
          )
      | inr t ↦
          let n : r + (j + l - r) ≡ j + l = omega (arith, r_lt) in
          (
            j + l - r,
            ground (arith, t, r_lt, h),
            sym (mod-add-mod c l (j + l - r))
                ∙ ap (λ m. m % l) n
                ∙ add-mod_right j l
                ∙ mod-eq_of_lt h,
          )
    ]

next_lem :
    (as_ : List Address) (c : ℕ)
    → 0 < length as_
    → length as_ < 2 ^ 32
    → c < max_uint32
    → next (record { addresses = as_; counter = c })
      ≡ (record { addresses = as_; counter = suc c }, ip_at as_ (c % length as_))
unfolding next
next_lem as_ c n m h =
    let e : length as_ % 2 ^ 32 ≡ length as_ = mod-eq_of_lt m in
    let x : (length as_ == 0) ≡ false = ground (arith, n) in
    let y : (c == max_uint32) ≡ false = ground (arith, h) in
    let z : (c + 1) % 2 ^ 32 ≡ suc c = mod-eq_of_lt (omega (arith, h)) ∙ omega arith in
    rw (e, x, y, z)
      (ap (λ (o : Option Text). (record { addresses = as_; counter = suc c }, o))
        (ip_at-get_elem? as_ (c % length as_)))

nexts_lem :
    (as_ : List Address) (k c i : ℕ)
    → 0 < length as_
    → length as_ < 2 ^ 32
    → c + k ≤ max_uint32
    → i < k
    → get_elem? (nexts k (record { addresses = as_; counter = c })) i
      ≡ some (ip_at as_ ((c + i) % length as_))
unfolding nexts
nexts_lem as_ zero c i n m h l = ground arith
nexts_lem as_ (suc k) c zero n m h l =
    ap (λ (q : AddressList × Option Text). some q.1) (next_lem as_ c n m (omega (arith, h)))
    ∙ ap (λ x. some (ip_at as_ (x % length as_))) (omega arith)
nexts_lem as_ (suc k) c (suc i) n m h l =
    ap (λ (q : AddressList × Option Text). get_elem? (nexts k q.0) i)
      (next_lem as_ c n m (omega (arith, h)))
    ∙ nexts_lem as_ k (suc c) i n m (omega (arith, h)) (omega (arith, l))
    ∙ ap (λ x. some (ip_at as_ (x % length as_))) (omega arith)

-- If the counter and the number of addresses together are at most the maximum of the counter, as many calls of
-- next as there are addresses give each of them a turn.
pub round_robin :
    (a : AddressList) (j : ℕ)
    → j < length a.addresses
    → length a.addresses < 2 ^ 32
    → a.counter + length a.addresses ≤ max_uint32
    → (i : ℕ) × (i < length a.addresses)
      × (get_elem? (nexts (length a.addresses) a) i ≡ some (ip_at a.addresses j))
round_robin a j h m n =
    let l = length a.addresses in
    let (i, x, t) = turn a.counter l j h in
    (
      i,
      x,
      nexts_lem a.addresses l a.counter i (omega (arith, h)) m n x
          ∙ ap (λ y. some (ip_at a.addresses y)) t,
    )
