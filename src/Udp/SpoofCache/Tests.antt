-- ===== src/Udp/SpoofCache/Tests.antt =====
-- The table of sockets at concrete inputs.
use pao_pao_gate_way.Common.{ℕ, ◌⊎◌, ◌≡◌, ◌≤◌, refl, List, [], ◌∷◌, none, some, is_some, true}
use pao_pao_gate_way.Common.Net.{Endpoint, Endpoint-discrete, v4}
use pao_pao_gate_way.Common.Maps.{get, insert, remove}
use pao_pao_gate_way.Udp.SpoofCache.{SpoofCache, new, get_or_bind, bind_spoof, keep, fail, evict}
use pao_pao_gate_way.Udp.SpoofCache.Order.{IsValid}
use pao_pao_gate_way.Udp.SpoofCache.Answers.{run, run-new-IsValid, get_or_bind_loses}

program : Unit {0}
unfolding new get_or_bind bind_spoof keep fail evict get insert remove Endpoint-discrete run
program = tt

abbrev dns : Endpoint
dns = (v4 0x08080808, 53)

abbrev web : Endpoint
web = (v4 0xcb007105, 443)

-- A table for one socket that holds one.
abbrev full : SpoofCache
full = record { map = (dns, 7) ∷ []; order = dns ∷ []; nx = []; cap = 1 }

first_bound : get_or_bind (new 1) 0 dns (some 7) ≡ (some 7, full)
unfolding program
first_bound = refl

second_bound : (get_or_bind full 5 web (some 8)).1.order ≡ web ∷ []
unfolding program
second_bound = refl

run-new-IsValid_example :
    IsValid (run (new 1) ((0, dns, some 7) ∷ (5, web, some 8) ∷ (9, dns, none) ∷ []))
run-new-IsValid_example =
    run-new-IsValid 1 ((0, dns, some 7) ∷ (5, web, some 8) ∷ (9, dns, none) ∷ [])

get_or_bind_loses_example :
    (get Endpoint-discrete dns (get_or_bind full 5 web (some 8)).1.map ≡ some 7)
    ⊎ ((get Endpoint-discrete web full.map ≡ none)
        × (is_some {A = ℕ} (some 8) ≡ true)
        × (1 ≤ 1)
        × ((rest : List Endpoint) × (dns ∷ [] ≡ dns ∷ rest)))
get_or_bind_loses_example = get_or_bind_loses full 5 web dns (some 8) (unfold program in refl)
