-- ===== src/Proto/Handshake/Tests.antt =====
-- The crate's own tests of the version exchange.
use alloyvnc.Base.{◌≡◌, refl, take}
use alloyvnc.Proto.Error.{ok, err, bad_version, unsupported_version}
use alloyvnc.Proto.Handshake.{v33, v38, for_version, version_bytes, parse_version, version_text}

versions :
    (parse_version (version_bytes v38) ≡ ok (3, 8))
    × (parse_version (take 11 (version_bytes v38)) ≡ err bad_version)
    × (parse_version (version_text b'x') ≡ err bad_version)
    × (for_version 3 5 ≡ ok v33)
    × (for_version 3 889 ≡ ok v38)
    × (for_version 4 1 ≡ err (unsupported_version 4 1))
unfolding parse_version version_bytes for_version
versions = (refl, refl, refl, refl, refl, refl)
