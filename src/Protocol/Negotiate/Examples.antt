-- ===== src/Protocol/Negotiate/Examples.antt =====
-- src/protocol/mod.rs: the versions of a connection, on examples.
use pylon.Prelude.{some, none, true, false, ◌≡◌, refl, arith, ◌++◌, ◌∷◌}
use pylon.Prelude.Results.{err}
use pylon.Protocol.Text.{ascii, decimal}
use pylon.Protocol.Negotiate.{negotiate, unsupported_protocol, invalid_version, no_protocol}
use pylon.Protocol.Negotiate.Printed.{negotiate-decimal}

unparseable_ignores_version :
    negotiate (some (ascii "abc")) (some (ascii "7.4.1")) false ≡ err invalid_version
unfolding negotiate ascii
unparseable_ignores_version = refl

neither_strict : negotiate none none true ≡ err no_protocol
unfolding negotiate ascii
neither_strict = refl

negotiate-decimal_example :
    (negotiate (some (decimal 8)) (some (ascii "7.4")) true ≡ err unsupported_protocol)
    × (negotiate none (some (decimal 8 ++ (46 ∷ ascii "1"))) true ≡ err unsupported_protocol)
negotiate-decimal_example = negotiate-decimal 8 (ascii "1") (some (ascii "7.4")) true (omega arith)
