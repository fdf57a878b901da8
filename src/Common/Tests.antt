-- ===== src/Common/Tests.antt =====
-- Copies, transfers and intervals on concrete inputs.
use nvshare.Prelude.{List, [], ◌∷◌, arith, Ensures}
use nvshare.Common.Transfer.{
  Attempts, interrupted, result, Io, count, Input, bytes, write_whole, IsPrefixSent,
  write_whole_lem, Fits, read_whole, IsWholeRead, read_whole_lem,
}

abbrev short_writes : List (Attempts Io)
short_writes = interrupted (result (count 2)) ∷ result (count 1) ∷ result (count 5) ∷ []

write_whole_lem_example :
    Ensures (IsPrefixSent (7 ∷ 8 ∷ 9 ∷ [])) (write_whole short_writes (7 ∷ 8 ∷ 9 ∷ []))
write_whole_lem_example = write_whole_lem short_writes (7 ∷ 8 ∷ 9 ∷ []) (ground arith) (omega arith)

abbrev short_reads : List (Attempts Input)
short_reads = result (bytes (7 ∷ [])) ∷ result (bytes (8 ∷ 9 ∷ [])) ∷ result (bytes []) ∷ []

short_reads-Fits : Fits short_reads 3
short_reads-Fits bs e = (ground arith, λ bs' e'. (ground arith, λ bs'' e''. (ground arith, tt)))

read_whole_lem_example : Ensures (IsWholeRead 3) (read_whole short_reads 3)
read_whole_lem_example = read_whole_lem short_reads 3 short_reads-Fits (omega arith)
