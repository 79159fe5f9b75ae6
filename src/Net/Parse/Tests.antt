-- ===== src/Net/Parse/Tests.antt =====
use bonerepo.Prelude.{◌≡◌, refl, none, some, ◌+◌, ◌*◌, ◌^◌}
use bonerepo.Prelude.Texts.{codes}
use bonerepo.Net.{v4, v6, network_of}
use bonerepo.Net.Parse.{ip_address, ip_network}

loopback : ip_address (codes "127.0.0.1") ≡ some (record { version = v4; value = 127 * 2 ^ 24 + 1 })
unfolding ip_address
loopback = refl

not_addresses :
    (ip_address (codes "127.0.0.01") ≡ none)
    × (ip_address (codes "1") ≡ none)
    × (ip_address (codes "::1::") ≡ none)
    × (ip_address (codes "1:2:3:4:5:6:7:8:9") ≡ none)
    × (ip_address (codes ":1:2:3:4:5:6:7") ≡ none)
unfolding ip_address
not_addresses = (refl, refl, refl, refl, refl)

v6_addresses :
    (ip_address (codes "::1") ≡ some (record { version = v6; value = 1 }))
    × (ip_address (codes "::") ≡ some (record { version = v6; value = 0 }))
    × (ip_address (codes "fe80::1%eth0")
        ≡ some (record { version = v6; value = 0xfe80 * 2 ^ 112 + 1 }))
    × (ip_address (codes "1:2:3:4:5:6:7::")
        ≡ some (record { version = v6; value = 0x00010002000300040005000600070000 }))
    × (ip_address (codes "::ffff:127.0.0.1")
        ≡ some (record { version = v6; value = 0xffff7f000001 }))
unfolding ip_address
v6_addresses = (refl, refl, refl, refl, refl)

networks :
    (ip_network (codes "10.1.2.3/8") ≡ some (network_of v4 (10 * 2 ^ 24) 8))
    × (ip_network (codes "10.0.0.0/255.0.0.0") ≡ some (network_of v4 (10 * 2 ^ 24) 8))
    × (ip_network (codes "10.0.0.0/0.0.0.255") ≡ some (network_of v4 (10 * 2 ^ 24) 24))
    × (ip_network (codes "fe80::/10") ≡ some (network_of v6 (0xfe80 * 2 ^ 112) 10))
    × (ip_network (codes "10.0.0.0/33") ≡ none)
unfolding ip_network network_of
networks = (refl, refl, refl, refl, refl)
