-- ===== src/Tests/Chanio.antt =====
-- Two writes that are read three bytes at a time (internal/chanio/chanio.go).
use dutctl.Base.{◌≡◌, some, List, [], ◌∷◌, Text, length, suc}
use mathlib.Core.List.{flatten}
use dutctl.Chanio.Delivery.{read_all, sent, read_all-sent}

abbrev writes : List Text
writes = (1 ∷ 2 ∷ 3 ∷ 4 ∷ []) ∷ [] ∷ (5 ∷ []) ∷ []

read_all-sent_example :
    read_all (suc (length (flatten writes))) 2 [] (sent writes) ≡ some (flatten writes)
read_all-sent_example = read_all-sent 2 writes
