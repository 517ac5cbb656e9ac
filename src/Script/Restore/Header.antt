-- ===== src/Script/Restore/Header.antt =====
-- internal/driver/postgres/postgres.go and internal/driver/connection.go: the \connect line of a
-- server dump.
use tablex.Common.{[], Bool, false, ◌||◌, ◌∷◌, ◌++◌, ◌==◌, Str, bytes}
use tablex.Text.{double}

-- QuoteAnsiIdent.
unfoldable pub quote_ansi_ident : Str → Str
unfolding double
quote_ansi_ident name = b'"' ∷ (double b'"' name ++ b'"' ∷ [])

-- WriteDatabaseSectionHeader: its line, and the line and the empty line as they are written.
unfoldable pub connect_line : Str → Str
unfolding quote_ansi_ident
connect_line name = bytes "\\connect " ++ quote_ansi_ident name

unfoldable pub database_section_header : Str → Str
unfolding connect_line
database_section_header name = connect_line name ++ bytes "\n\n"

-- UnaddressableDatabase: whether there is a reason.
unfoldable pub unaddressable_database : Str → Bool
unaddressable_database [] = false
unaddressable_database (c ∷ name) = c == 13 || c == 10 || unaddressable_database name
