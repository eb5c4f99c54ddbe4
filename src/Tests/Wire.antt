-- ===== src/Tests/Wire.antt =====
-- Witnesses and runs for Wire.
use clipboard_helper.Prelude.{◌^◌, ◌-◌, ◌≡◌, [], ◌∷◌, ◌++◌, arith}
use clipboard_helper.Prelude.Parse.{parsed}
use clipboard_helper.Wire.{write_varint, read_varint}
use clipboard_helper.Wire.Varint.{read_varint-write_varint}

read_varint-write_varint_example :
    read_varint (write_varint (2 ^ 64 - 1) ++ 7 ∷ []) ≡ parsed (2 ^ 64 - 1, 7 ∷ [])
read_varint-write_varint_example = read_varint-write_varint (2 ^ 64 - 1) (7 ∷ []) (omega arith)
