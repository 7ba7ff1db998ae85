-- ===== src/NameResolution/Mdns/Tests.antt =====
-- Small caches of nameresolution/mdns/mdns.go.
use dapr_components_contrib.Prelude.{
  ℕ, ◌<◌, codes, text_eq, some, [], ◌∷◌, get_elem?, ◌≡◌, refl, arith,
}
use dapr_components_contrib.Dict.{lookup, insert}
use dapr_components_contrib.NameResolution.Mdns.{
  AddressList, next, add_app_address, resolve_cached, union,
}
use dapr_components_contrib.NameResolution.Mdns.RoundRobin.{nexts, round_robin}
use dapr_components_contrib.NameResolution.Mdns.Cache.{OneEach}

abbrev three : AddressList
three = record {
  addresses =
      record { ip = codes "a"; expires_at = 10 }
      ∷ record { ip = codes "b"; expires_at = 20 }
      ∷ record { ip = codes "c"; expires_at = 30 }
      ∷ [];
  counter = 4;
}

turns_of_three : nexts 3 three ≡ some (codes "b") ∷ some (codes "c") ∷ some (codes "a") ∷ []
unfolding nexts
turns_of_three = refl

at_the_maximum : (next (record three { counter = 4294967295 })).0.counter ≡ 1
unfolding next
at_the_maximum = refl

three-OneEach : OneEach three.addresses
unfolding text_eq
three-OneEach = ((refl, (refl, tt)), ((refl, tt), (tt, tt)))

round_robin_example : (i : ℕ) × (i < 3) × (get_elem? (nexts 3 three) i ≡ some (some (codes "a")))
round_robin_example = round_robin three 0 (omega arith) (omega arith) (omega arith)

-- an address that has been added is what the resolver answers
added_resolved :
    (resolve_cached (codes "app") (record {
      app_addresses_ipv4 = [];
      app_addresses_ipv6 = add_app_address (codes "app") (codes "::1") 5 [];
    })).1
    ≡ some (codes "::1")
unfolding resolve_cached add_app_address next lookup insert
added_resolved = refl

each_id_once :
    union (codes "x" ∷ codes "y" ∷ []) (codes "y" ∷ codes "z" ∷ [])
    ≡ codes "x" ∷ codes "y" ∷ codes "z" ∷ []
unfolding union insert
each_id_once = refl
