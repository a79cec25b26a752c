-- ===== src/Http2/Conn/Rows.antt =====
-- http2.go: the rows of the map of streams.
use io_mutiplexing.Common.{
  ℕ, ◌≡◌, arith, false, List, [], ◌∷◌, inl, inr, some, All, Bool-cases, ◌==◌,
}
use io_mutiplexing.Common.Maps.{
  lookup, insert, delete, HasDistinctKeys, HasDistinctKeys-insert, HasDistinctKeys-delete,
}
use io_mutiplexing.Http2.Types.{Http2Conn, Http2Stream, Outcome}
use io_mutiplexing.Http2.Conn.Buffer.{state_of}

-- A row of the map: a stream under its own id, which is not 0, and to which nothing was answered.
abbrev pub IsRow : ℕ → Http2Stream → Type 0
IsRow id st = (st.id ≡ id) × ((id == 0) ≡ false) × (st.sent_hdr ≡ false)

abbrev pub Rows : List (ℕ × Http2Stream) → Type 0
Rows = All (λ row. IsRow row.0 row.1)

pub record IsTable (m : List (ℕ × Http2Stream)) : Type 0 where
  pub distinct : HasDistinctKeys m
  pub rows : Rows m

pub Rows-insert :
    (id : ℕ) (st : Http2Stream) (m : List (ℕ × Http2Stream))
    → IsRow id st
    → Rows m
    → Rows (insert id st m)
unfolding insert
Rows-insert id st [] r h = (r, tt)
Rows-insert id st ((k, old) ∷ m) r (own, h) = elim (Bool-cases (k == id)) [
  | inl same ↦ rw same (r, h)
  | inr other ↦ rw other (own, Rows-insert id st m r h)
]

pub Rows-delete : (id : ℕ) (m : List (ℕ × Http2Stream)) → Rows m → Rows (delete id m)
unfolding delete
Rows-delete id [] h = tt
Rows-delete id ((k, old) ∷ m) (own, h) = elim (Bool-cases (k == id)) [
  | inl same ↦ rw same (Rows-delete id m h)
  | inr other ↦ rw other (own, Rows-delete id m h)
]

pub Rows-lookup :
    (id : ℕ) (st : Http2Stream) (m : List (ℕ × Http2Stream))
    → Rows m
    → lookup id m ≡ some st
    → IsRow id st
unfolding lookup
Rows-lookup id st [] h e = cc
Rows-lookup id st ((k, old) ∷ m) ((own, pos_id, fresh), h) e =
    ground (arith, own, pos_id, fresh, e, Rows-lookup id st m h)

pub insert-IsTable :
    (id : ℕ) (st : Http2Stream) (m : List (ℕ × Http2Stream))
    → IsRow id st
    → IsTable m
    → IsTable (insert id st m)
insert-IsTable id st m r t = record {
  distinct = HasDistinctKeys-insert id st m t.distinct;
  rows = Rows-insert id st m r t.rows;
}

pub delete-IsTable : (id : ℕ) (m : List (ℕ × Http2Stream)) → IsTable m → IsTable (delete id m)
delete-IsTable id m t = record {
  distinct = HasDistinctKeys-delete id m t.distinct;
  rows = Rows-delete id m t.rows;
}

-- The map that a method leaves, also with an error.
abbrev pub HasTable : Outcome Http2Conn → Type 0
HasTable o = IsTable (state_of o).streams
