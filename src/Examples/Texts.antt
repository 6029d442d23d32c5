-- ===== src/Examples/Texts.antt =====
-- Texts on the wire.
use zdaq.Base.{◌≡◌, some, arith}
use zdaq.Wire.{source_header, data_header, scan_identity}
use zdaq.Wire.RoundTrip.{scan_identity-data_header}

scan_identity-data_header_example :
    scan_identity (data_header (source_header 5 2) 7 77)
    ≡ some (record { detector = 5; source = 2; gtc = 7 })
scan_identity-data_header_example =
    scan_identity-data_header 5 2 7 77 (omega arith) (omega arith) (omega arith)
