-- ===== src/NameResolution/Mdns.antt =====
-- nameresolution/mdns/mdns.go: the cache of addresses that the mDNS resolver answers from.
-- The clock is a number of nanoseconds.
pub mod Cache
pub mod RoundRobin
mod Tests
use dapr_components_contrib.Prelude.{
  ℕ, suc, ◌+◌, ◌-◌, ◌*◌, ◌%◌, ◌^◌, Text, codes, text_eq, Option, none, some, List, [], ◌∷◌, ◌++◌,
  length, get_elem?, map, Bool, not, ◌&&◌, ltb, ◌==◌, if◌then◌else◌,
}
use dapr_components_contrib.Dict.{Dict, lookup, insert}

pub record Address : Type 0 where
  pub ip : Text
  pub expires_at : ℕ

-- addressList: the counter is a uint32.
pub record AddressList : Type 0 where
  pub addresses : List Address
  pub counter : ℕ

-- the zero value
abbrev pub no_addresses : AddressList
no_addresses = record { addresses = []; counter = 0 }

-- one minute
abbrev pub address_ttl : ℕ
address_ttl = 60 * 1_000_000_000

-- the loop of expire: `clock i` is what the clock says at the address with index i
unfoldable pub unexpired : (ℕ → ℕ) → ℕ → List Address → List Address
unexpired clock i [] = []
unexpired clock i (addr ∷ rest) =
    let kept = unexpired clock (suc i) rest in
    if ltb (clock i) addr.expires_at then addr ∷ kept else kept

-- (*addressList).expire
unfoldable pub expire : (ℕ → ℕ) → AddressList → AddressList
unfolding unexpired
expire clock a = record a { addresses = unexpired clock 0 a.addresses }

-- the loop of add, and the append behind it
unfoldable pub renew : Text → ℕ → List Address → List Address
unfolding text_eq
renew ip now [] = record { ip = ip; expires_at = now + address_ttl } ∷ []
renew ip now (addr ∷ rest) =
    let renewed = renew ip now rest in
    if text_eq addr.ip ip
    then record addr { expires_at = now + address_ttl } ∷ rest
    else addr ∷ renewed

-- (*addressList).add
unfoldable pub add : Text → ℕ → AddressList → AddressList
unfolding renew
add ip now a = record a { addresses = renew ip now a.addresses }

abbrev pub max_uint32 : ℕ
max_uint32 = 2 ^ 32 - 1

-- the counter before it goes up: at its maximum it starts again
unfoldable pub reset : ℕ → ℕ
reset counter = if counter == max_uint32 then 0 else counter

-- (*addressList).next, when no other goroutine takes an address at the same time
unfoldable pub next : AddressList → AddressList × Option Text
unfolding reset
next a =
    let l = length a.addresses % 2 ^ 32 in
    let counter = reset a.counter in
    if l == 0 then (a, none) else (
      record a { counter = (counter + 1) % 2 ^ 32 },
      elim (get_elem? a.addresses (counter % l)) [ none ↦ none | some addr ↦ some addr.ip ],
    )

-- The two caches of the Resolver.
pub record Resolver : Type 0 where
  pub app_addresses_ipv4 : Dict AddressList
  pub app_addresses_ipv6 : Dict AddressList

-- the writes of addAppAddressIPv4 and addAppAddressIPv6 to their caches
unfoldable pub add_app_address : Text → Text → ℕ → Dict AddressList → Dict AddressList
unfolding add
add_app_address app_id addr now cache = elim (lookup app_id cache) [
  | none ↦ insert app_id (add addr now no_addresses) cache
  | some addr_list ↦ insert app_id (add addr now addr_list) cache
]

-- addAppAddressIPv4
unfoldable pub add_app_address_ipv4 : Text → Text → ℕ → Resolver → Resolver
unfolding add_app_address
add_app_address_ipv4 app_id addr now m = record m {
  app_addresses_ipv4 = add_app_address app_id addr now m.app_addresses_ipv4;
}

-- addAppAddressIPv6
unfoldable pub add_app_address_ipv6 : Text → Text → ℕ → Resolver → Resolver
unfolding add_app_address
add_app_address_ipv6 app_id addr now m = record m {
  app_addresses_ipv6 = add_app_address app_id addr now m.app_addresses_ipv6;
}

-- the reads of nextIPv4Address and nextIPv6Address in their caches, with the counter that they move
unfoldable pub next_address : Text → Dict AddressList → Dict AddressList × Option Text
unfolding next
next_address app_id cache = elim (lookup app_id cache) [
  | none ↦ (cache, none)
  | some addr_list ↦ (let (after, addr) = next addr_list in (insert app_id after cache, addr))
]

-- nextIPv4Address
unfoldable pub next_ipv4_address : Text → Resolver → Resolver × Option Text
unfolding next_address
next_ipv4_address app_id m =
    let (cache, addr) = next_address app_id m.app_addresses_ipv4 in
    (record m { app_addresses_ipv4 = cache }, addr)

-- nextIPv6Address
unfoldable pub next_ipv6_address : Text → Resolver → Resolver × Option Text
unfolding next_address
next_ipv6_address app_id m =
    let (cache, addr) = next_address app_id m.app_addresses_ipv6 in
    (record m { app_addresses_ipv6 = cache }, addr)

-- the part of ResolveID that answers from the caches; `none` goes on to browse the network
unfoldable pub resolve_cached : Text → Resolver → Resolver × Option Text
unfolding next_ipv4_address next_ipv6_address
resolve_cached id m =
    let (after, addr) = next_ipv4_address id m in
    elim addr [ some four ↦ (after, some four) | none ↦ next_ipv6_address id after ]

-- the loops of getAppIDsIPv4 and getAppIDsIPv6: the cache with what has expired taken out of its
-- lists, and the ids
unfoldable pub expire_all : (Text → ℕ → ℕ) → Dict AddressList → Dict AddressList × List Text
unfolding expire
expire_all clock [] = ([], [])
expire_all clock ((app_id, addr) ∷ rest) =
    let (cache, app_ids) = expire_all clock rest in
    ((app_id, expire (clock app_id) addr) ∷ cache, app_id ∷ app_ids)

-- getAppIDsIPv4
unfoldable pub get_app_ids_ipv4 : (Text → ℕ → ℕ) → Resolver → Resolver × List Text
unfolding expire_all
get_app_ids_ipv4 clock m =
    let (cache, app_ids) = expire_all clock m.app_addresses_ipv4 in
    (record m { app_addresses_ipv4 = cache }, app_ids)

-- getAppIDsIPv6
unfoldable pub get_app_ids_ipv6 : (Text → ℕ → ℕ) → Resolver → Resolver × List Text
unfolding expire_all
get_app_ids_ipv6 clock m =
    let (cache, app_ids) = expire_all clock m.app_addresses_ipv6 in
    (record m { app_addresses_ipv6 = cache }, app_ids)

-- a loop of union: the set of the ids with those of the list
unfoldable pub add_keys : List Text → Dict (Unit {0}) → Dict (Unit {0})
add_keys [] keys = keys
add_keys (id ∷ ids) keys = add_keys ids (insert id tt keys)

-- union
unfoldable pub union : List Text → List Text → List Text
unfolding add_keys
union first second = map (λ e. e.0) (add_keys second (add_keys first []))

-- getAppIDs
unfoldable pub get_app_ids : (Text → ℕ → ℕ) → (Text → ℕ → ℕ) → Resolver → Resolver × List Text
unfolding get_app_ids_ipv4 get_app_ids_ipv6 union
get_app_ids clock later m =
    let (once, four) = get_app_ids_ipv4 clock m in
    let (twice, six) = get_app_ids_ipv6 later once in (twice, union four six)

-- What browse takes from a zeroconf.ServiceEntry: its texts, its addresses and its port as they print
pub record ServiceEntry : Type 0 where
  pub texts : List Text
  pub addr_ipv4 : List Text
  pub addr_ipv6 : List Text
  pub port : Text

abbrev pub with_port : Text → Text → Text
with_port addr port = addr ++ codes ":" ++ port

-- what handleEntry does for one text that is the app's id, with the address for the callback
unfoldable pub add_entry : Text → List Text → List Text → Text → ℕ → Resolver → Resolver × Text
unfolding add_app_address_ipv4 add_app_address_ipv6
add_entry app_id [] [] port now m = (m, [])
add_entry app_id (four ∷ _) [] port now m =
    (add_app_address_ipv4 app_id (with_port four port) now m, with_port four port)
add_entry app_id [] (six ∷ _) port now m =
    (add_app_address_ipv6 app_id (with_port six port) now m, with_port six port)
add_entry app_id (four ∷ _) (six ∷ _) port now m = (
  add_app_address_ipv6 app_id (with_port six port) now
      (add_app_address_ipv4 app_id (with_port four port) now m),
  with_port six port,
)

-- the loop of handleEntry in browse: the addresses that the callback gets, in order
unfoldable pub handle_texts : Text → ServiceEntry → ℕ → List Text → Resolver → Resolver × List Text
unfolding add_entry text_eq
handle_texts app_id entry now [] m = (m, [])
handle_texts app_id entry now (text ∷ texts) m =
    let (after, addr) = add_entry app_id entry.addr_ipv4 entry.addr_ipv6 entry.port now m in
    let (last, called) = handle_texts app_id entry now texts after in
    if not (text_eq text app_id)
    then (m, [])
    else if length entry.addr_ipv4 == 0 && length entry.addr_ipv6 == 0
    then (m, [])
    else (last, addr ∷ called)

-- handleEntry
unfoldable pub handle_entry : Text → ServiceEntry → ℕ → Resolver → Resolver × List Text
unfolding handle_texts
handle_entry app_id entry now m = handle_texts app_id entry now entry.texts m
