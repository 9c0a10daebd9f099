-- ===== src/Net/Tests.antt =====
-- The address of the instance credentials, in its several spellings.
use ai_kernel.Prelude.{◌≡◌, true, false, arith}
use ai_kernel.Net.Address.{Ipv4Addr, v6, is_reachable, classify, classify_v4}
use ai_kernel.Net.Address.Table.{IsAddress, number, table, look_up, ip, classify_v4-table}
use ai_kernel.Net.Address.Embedded.{translated, classify-translated}

abbrev credentials : Ipv4Addr
credentials = ip 169 254 169 254

abbrev public : Ipv4Addr
public = ip 93 184 216 34

credentials-IsAddress : IsAddress credentials
credentials-IsAddress = omega arith

classify_v4-table_example : classify_v4 credentials ≡ look_up table (number credentials)
classify_v4-table_example = classify_v4-table credentials credentials-IsAddress

classify-translated_example : is_reachable (classify (v6 (translated credentials))) false ≡ true
classify-translated_example = classify-translated credentials false
