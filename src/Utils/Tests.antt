-- ===== src/Utils/Tests.antt =====
-- A run of `print_hex`.
use tema2_pc_client_server_t.Base.{◌≡◌, [], ◌∷◌, ◌++◌, arith, ok}
use tema2_pc_client_server_t.Utils.{print_hex, signed_hexes, print_hex-signed_hexes}

print_hex-signed_hexes_example :
    print_hex (18 ∷ 200 ∷ 9 ∷ []) 2 ≡ ok (signed_hexes (18 ∷ 200 ∷ []) ++ b'\n' ∷ [])
print_hex-signed_hexes_example =
    print_hex-signed_hexes (18 ∷ 200 ∷ []) (9 ∷ []) (omega arith, (omega arith, tt))
