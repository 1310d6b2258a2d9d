-- ===== src/Ingest/States.antt =====
-- The states of the tables of one extraction, and the cursors that are read from them.
use azure_lakehouse_pipeline.Dict.{contains, IsDistinct, member, Dict, get}
use azure_lakehouse_pipeline.Prelude.{
  List, String, map, ◌∷◌, ◌≡◌, ◌∙◌, false, [], ap, str_eq, Option, ◌||◌, refl, some, All, arith,
  eq_iff, eq_refl,
}
use azure_lakehouse_pipeline.Ingest.Table.{BronzeState}
use azure_lakehouse_pipeline.Ingest.Extract.{cursors}
use azure_lakehouse_pipeline.Contracts.Bronze.{EventCursor}

abbrev pub HasNoDuplicates : List String → Type 0
HasNoDuplicates [] = Unit
HasNoDuplicates (n ∷ ns) = (member n ns ≡ false) × HasNoDuplicates ns

abbrev pub names_of : List BronzeState → List String
names_of states = map (λ s. s.table_name) states

pub contains-cursors :
    (k : String) (states : List BronzeState)
    → contains k (cursors states) ≡ member k (names_of states)
unfolding contains
contains-cursors k [] = refl
contains-cursors k (s ∷ states) = ap (λ b. str_eq s.table_name k || b) (contains-cursors k states)

pub cursors-IsDistinct :
    (states : List BronzeState) → HasNoDuplicates (names_of states) → IsDistinct (cursors states)
cursors-IsDistinct [] h = tt
cursors-IsDistinct (s ∷ states) (new, h) =
    (contains-cursors s.table_name states ∙ new, cursors-IsDistinct states h)

get-cursors_tail :
    (k : String) (c : Option EventCursor) (d : Dict (Option EventCursor))
    (states : List BronzeState)
    → member k (names_of states) ≡ false
    → All (λ s. get s.table_name d ≡ some s.cursor) states
    → All (λ s. get s.table_name ((k, c) ∷ d) ≡ some s.cursor) states
unfolding get
get-cursors_tail k c d [] new h = tt
get-cursors_tail k c d (s ∷ states) new (e, es) =
    let other : str_eq k s.table_name ≡ false =
      ground (arith, eq_iff k s.table_name, eq_iff s.table_name k) in
    let rest : member k (names_of states) ≡ false = ground arith in
    (rw other e, get-cursors_tail k c d states rest es)

pub get-cursors :
    (states : List BronzeState)
    → HasNoDuplicates (names_of states)
    → All (λ s. get s.table_name (cursors states) ≡ some s.cursor) states
unfolding get
get-cursors [] h = tt
get-cursors (s ∷ states) (new, h) = (
  rw (eq_refl s.table_name),
  get-cursors_tail s.table_name s.cursor (cursors states) states new (get-cursors states h),
)
