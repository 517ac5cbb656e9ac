-- ===== src/Ddl/Tests.antt =====
-- internal/driver/sqlite/ddlparse.go: a concrete CREATE TABLE text.
use tablex.Common.{[], Bool, false, List, ◌∷◌, ◌++◌, some, ◌≡◌, refl, arith, Str, bytes}
use tablex.Text.{Tables}
use tablex.Ddl.{skip_ddl_comment}
use tablex.Ddl.Columns.{
  split_column_defs, column_defs_region, parse_generated_exprs, ddl_is_without_rowid, without_rowid,
  table_options, elide_ddl_tail,
}
use tablex.Ddl.Pieces.{Piece, print_all, AreSpelled}
use tablex.Ddl.Options.{create, ddl_is_without_rowid_lem, table_options_lem, elide_ddl_tail_lem}
use tablex.Ddl.Region.{Top, column_defs_region_lem}
use tablex.Ddl.Items.{listed, joined, split_column_defs_lem}
use tablex.Ddl.Total.{parse_ddl_total}

-- Tables that know ASCII alone.
abbrev ascii : Tables
ascii = record {
  lower_text = λ s. s;
  upper_text = λ s. s;
  trim_text = λ s. s;
  fields_text = λ s. s ∷ [];
  equal_text = λ _ _. false;
  letter = λ _. false;
  digit = λ _. false;
  space = λ _. false;
}

abbrev head : List Piece
head = Piece.plain b't' ∷ Piece.quoted b'"' (bytes "a(\"") ∷ []

-- `a "x,"` and `b(/*,*/2,3)`.
abbrev first : List Piece
first = Piece.plain b'a' ∷ Piece.quoted b'"' (bytes "x,") ∷ []

abbrev nested : List Piece
nested = Piece.block (bytes ",") ∷ Piece.plain b'2' ∷ Piece.plain b',' ∷ Piece.plain b'3' ∷ []

abbrev second : List Piece
second = Piece.plain b'b' ∷ Piece.plain b'(' ∷ (nested ++ (Piece.plain b')' ∷ []))

abbrev options : List Piece
options =
    Piece.plain b' '
    ∷ Piece.block (bytes "ROWID")
    ∷ Piece.bracket (bytes "r")
    ∷ Piece.line (bytes "x")
    ∷ []

options-AreSpelled : AreSpelled options []
unfolding skip_ddl_comment
options-AreSpelled =
    ((refl, refl, refl), ((refl, (refl, (refl, (refl, tt)))), ((refl, tt), (((refl, tt), tt), tt))))

abbrev tops : List Top
tops =
    Top.one (Piece.plain b'a')
    ∷ Top.one (Piece.quoted b'"' (bytes "x,"))
    ∷ Top.one (Piece.plain b',')
    ∷ Top.one (Piece.plain b'b')
    ∷ Top.group nested
    ∷ []

abbrev text : Str
text = print_all (create head (joined first (second ∷ []))) (print_all options [])

text-AreSpelled : AreSpelled (create head (joined first (second ∷ []))) (print_all options [])
unfolding skip_ddl_comment
text-AreSpelled = (
  (refl, refl, refl),
  (
    (refl, λ e. absurd (omega (arith, e))),
    (
      (refl, refl, refl),
      (
        (refl, refl, refl),
        (
          (refl, λ e. absurd (omega (arith, e))),
          (
            (refl, refl, refl),
            (
              (refl, refl, refl),
              (
                (refl, refl, refl),
                (
                  tt,
                  (
                    (refl, refl, refl),
                    (
                      (refl, refl, refl),
                      ((refl, refl, refl), ((refl, refl, refl), ((refl, refl, refl), tt))),
                    ),
                  ),
                ),
              ),
            ),
          ),
        ),
      ),
    ),
  ),
)

ddl_is_without_rowid_lem_example :
    ddl_is_without_rowid ascii text ≡ some (without_rowid ascii (bytes "    "))
ddl_is_without_rowid_lem_example =
    ddl_is_without_rowid_lem ascii head (joined first (second ∷ [])) options text-AreSpelled
      options-AreSpelled refl refl

table_options_lem_example : table_options text ≡ some (print_all options [])
table_options_lem_example =
    table_options_lem head (joined first (second ∷ [])) (print_all options []) text-AreSpelled refl
      refl

elide_ddl_tail_lem_example : elide_ddl_tail (print_all options []) ≡ some (bytes "    ")
elide_ddl_tail_lem_example = elide_ddl_tail_lem options options-AreSpelled

split_column_defs_lem_example :
    split_column_defs ascii text ≡ some (listed ascii (first ∷ second ∷ []))
split_column_defs_lem_example =
    split_column_defs_lem ascii head first (second ∷ []) (print_all options []) text-AreSpelled refl
      (refl, (refl, tt))

column_defs_region_lem_example : column_defs_region text ≡ some (bytes "a ,b ")
column_defs_region_lem_example =
    column_defs_region_lem head tops (print_all options []) text-AreSpelled refl
      (refl, (refl, (refl, (refl, (refl, tt)))))

parse_ddl_total_example :
    ((out : List (Str × Str)) × (parse_generated_exprs ascii text ≡ some out))
    × ((b : Bool) × (ddl_is_without_rowid ascii text ≡ some b))
parse_ddl_total_example = parse_ddl_total ascii text
