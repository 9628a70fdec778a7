-- ===== src/Versions.antt =====
-- enums.rs: the numbers of the TLS versions. rustls' own `TLS12` and `TLS13` have the numbers of
-- `Tlsv1_2` and `Tlsv1_3`, which the tests of enums.rs check.
use rustls_ffi.Prelude.{ℕ, List, [], ◌∷◌, ◌==◌, if◌then◌else◌, length}

pub data RustlsTlsVersion : Type 0 where
  sslv2 sslv3 tlsv1_0 tlsv1_1 tlsv1_2 tlsv1_3 : RustlsTlsVersion

unfoldable pub version_number : RustlsTlsVersion → ℕ
version_number sslv2 = 512
version_number sslv3 = 768
version_number tlsv1_0 = 769
version_number tlsv1_1 = 770
version_number tlsv1_2 = 771
version_number tlsv1_3 = 772

-- The static arrays, and their lengths.
unfoldable pub rustls_all_versions : List ℕ
unfolding version_number
rustls_all_versions = version_number tlsv1_3 ∷ version_number tlsv1_2 ∷ []

unfoldable pub rustls_default_versions : List ℕ
unfolding version_number
rustls_default_versions = version_number tlsv1_3 ∷ version_number tlsv1_2 ∷ []

unfoldable pub rustls_all_versions_len : ℕ
unfolding rustls_all_versions
rustls_all_versions_len = length rustls_all_versions

unfoldable pub rustls_default_versions_len : ℕ
unfolding rustls_default_versions
rustls_default_versions_len = length rustls_default_versions

-- `&rustls::version::TLS12` and `&rustls::version::TLS13`
pub data SupportedVersion : Type 0 where
  tls12 tls13 : SupportedVersion

-- The loop over the numbers that both `…_builder_new_custom` have: any other number is skipped.
unfoldable pub versions_from : List ℕ → List SupportedVersion
unfolding version_number
versions_from [] = []
versions_from (n ∷ rest) =
    let versions = versions_from rest in
    if n == version_number tlsv1_2
    then tls12 ∷ versions
    else if n == version_number tlsv1_3
    then tls13 ∷ versions
    else versions
