-- ===== src/Examples/Tls.antt =====
-- Concrete runs of the TLS filter and of `is_complete_record`.
use hold_the_donut.Prelude.{
  ℕ, ◌≡◌, ◌↔◌, refl, arith, true, List, [], ◌∷◌, ◌++◌, All, replicate, bytes_eq,
}
use hold_the_donut.Prelude.I32.{sub_i32, as_usize}
use hold_the_donut.Io.VisionXray.Records.{
  is_complete_record, records, IsPayload, is_complete_record-records,
}
use hold_the_donut.Io.VisionXray.Filter.{
  default_filter, contains, windows_any, read_cipher, look, search_version, filter,
}

-- A ServerHello without a session id, of the suite 0x1301, with the extension of TLS 1.3.
abbrev server_hello : List ℕ
server_hello =
    0x16
    ∷ 0x03
    ∷ 0x03
    ∷ 0
    ∷ 90
    ∷ 0x02
    ∷ (replicate 37 0
        ++ (0 ∷ 0x13 ∷ 0x01 ∷ (replicate 30 0 ++ (0x00 ∷ 0x2b ∷ 0x00 ∷ 0x02 ∷ 0x03 ∷ 0x04 ∷ []))))

enabled : (filter default_filter server_hello).enable_xtls ≡ true
unfolding filter look read_cipher search_version contains windows_any bytes_eq sub_i32 as_usize
enabled = refl

is_complete_record-records_example :
    (is_complete_record (0x17 ∷ 3 ∷ 3 ∷ 0 ∷ 1 ∷ 65 ∷ []) ≡ true) ↔ (
      (payloads : List (List ℕ)) × All IsPayload payloads
      × (0x17 ∷ 3 ∷ 3 ∷ 0 ∷ 1 ∷ 65 ∷ [] ≡ records payloads))
is_complete_record-records_example =
    is_complete_record-records (0x17 ∷ 3 ∷ 3 ∷ 0 ∷ 1 ∷ 65 ∷ []) (ground arith)
