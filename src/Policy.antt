-- ===== src/Policy.antt =====
-- internal/server/restrict.go, with the parts of internal/config/config.go, internal/auth/csrf.go
-- and internal/server/middleware.go that it reads: restricted mode.
pub mod Segments
pub mod Decision
mod Tests
use tablex.Common.{
  [], ℕ, ◌+◌, ◌-◌, ◌*◌, Bool, true, false, not, ◌&&◌, ◌||◌, List, ◌∷◌, map, Option, none, some,
  if◌then◌else◌, ltb, ◌==◌, Str, bytes, str_eq, str_mem, ite, length,
}
use tablex.Text.{within, cut_prefix, split_on}

-- RestrictConfig.
pub record RestrictConfig : Type 0 where
  pub read_only : Bool
  pub allow_console : Bool
  pub allow_ddl : Bool
  pub databases : List Str

abbrev pub has_databases : RestrictConfig → Bool
has_databases r = ltb 0 (length r.databases)

pub restricted : RestrictConfig → Bool
restricted r = r.read_only || not r.allow_console || not r.allow_ddl || has_databases r

pub database_allowed : RestrictConfig → Str → Bool
unfolding str_mem
database_allowed r name = if has_databases r then str_mem name r.databases else true

pub safe_method : Str → Bool
unfolding str_mem
safe_method method = str_mem method (bytes "GET" ∷ bytes "HEAD" ∷ bytes "OPTIONS" ∷ [])

abbrev pub metrics_path : Str
metrics_path = bytes "/metrics"

-- isStaticPath, isSSOPath and isPublicPath.
is_static_path : Str → Bool
unfolding cut_prefix
is_static_path p = elim (cut_prefix (bytes "/static/") p) [ some _ ↦ true | none ↦ false ]

is_sso_path : Str → Bool
unfolding str_mem
is_sso_path p = str_mem p (bytes "/auth/sso/start" ∷ bytes "/auth/sso/callback" ∷ [])

pub is_public_path : Str → Bool
unfolding str_mem is_sso_path is_static_path
is_public_path p =
    str_mem p (
      bytes "/login"
      ∷ bytes "/logout"
      ∷ bytes "/healthz"
      ∷ bytes "/favicon.ico"
      ∷ metrics_path
      ∷ [])
    || is_sso_path p
    || is_static_path p

-- `strings.Trim(s, "/")`.
pub trim_left_slash : Str → Str
trim_left_slash [] = []
trim_left_slash (c ∷ s) = elim (c == b'/') [ true ↦ trim_left_slash s | false ↦ c ∷ s ]

pub trim_right_slash : Str → Str
trim_right_slash [] = []
trim_right_slash (c ∷ s) = elim (trim_right_slash s) [
  | [] ↦ if c == b'/' then [] else c ∷ []
  | d ∷ more ↦ c ∷ d ∷ more
]

-- `url.PathUnescape`: none for its error.
abbrev pub is_hex : ℕ → Bool
is_hex c = within b'0' b'9' c || within b'a' b'f' c || within b'A' b'F' c

abbrev pub unhex : ℕ → ℕ
unhex c =
    if within b'0' b'9' c
    then c - b'0'
    else if within b'a' b'f' c
    then c - b'a' + 10
    else c - b'A' + 10

abbrev pub add_byte : ℕ → Option Str → Option Str
add_byte c none = none
add_byte c (some s) = some (c ∷ s)

pub path_unescape : Str → Option Str
path_unescape [] = some []
path_unescape (c ∷ []) = if c == b'%' then none else some (c ∷ [])
path_unescape (c ∷ a ∷ []) = if c == b'%' then none else add_byte c (path_unescape (a ∷ []))
path_unescape (c ∷ a ∷ b ∷ s) = elim (c == b'%') [
  | true ↦ elim (is_hex a && is_hex b) [
    | true ↦ add_byte (unhex a * 16 + unhex b) (path_unescape s)
    | false ↦ none
  ]
  | false ↦ add_byte c (path_unescape (a ∷ b ∷ s))
]

-- databaseOf: a segment that fails to unescape is used unchanged.
abbrev pub segment_or : Str → Option Str → Str
segment_or s none = s
segment_or s (some u) = u

pub segment : Str → Str
unfolding path_unescape
segment s = segment_or s (path_unescape s)

database_in : List Str → Str
unfolding str_eq
database_in (first ∷ second ∷ _) = ite (str_eq first (bytes "db")) second []
database_in _ = []

pub database_of : Str → Str
unfolding trim_left_slash trim_right_slash split_on segment database_in
database_of escaped =
    database_in (map segment (split_on b'/' (trim_right_slash (trim_left_slash escaped))))

-- need, and the request as the middleware reads it: the method, the decoded and the escaped path,
-- and the answer of the policy mux, which is an entry or another handler, and the pattern.
pub record Need : Type 0 where
  pub write : Bool
  pub console : Bool
  pub ddl : Bool

pub record Request : Type 0 where
  pub method : Str
  pub path : Str
  pub escaped_path : Str
  pub entry : Option Need
  pub pattern : Str

abbrev unclassified : Bool → Need
unclassified unsafe = record { write = unsafe; console = false; ddl = unsafe }

need_of : Need → Option Need → Str → Need
need_of default none pattern = default
need_of default (some n) [] = default
need_of default (some n) (c ∷ p) = n

pub need_for : Request → Need
unfolding safe_method need_of
need_for r = need_of (unclassified (not (safe_method r.method))) r.entry r.pattern

-- The middleware's answer: the next handler, or a refusal with its message.
pub data Answer : Type 0 where
  served : Answer
  refused_database : Str → Answer
  refused_console : Answer
  refused_read_only : Answer
  refused_ddl : Answer

pub by_need : RestrictConfig → Need → Answer
by_need rc nd =
    if nd.console && not rc.allow_console
    then Answer.refused_console
    else if nd.write && rc.read_only
    then Answer.refused_read_only
    else if nd.ddl && not rc.allow_ddl
    then Answer.refused_ddl
    else Answer.served

abbrev pub nonempty : Str → Bool
nonempty [] = false
nonempty (c ∷ s) = true

pub restrict : RestrictConfig → Request → Answer
unfolding restricted is_public_path database_of database_allowed need_for by_need
restrict rc r =
    if not (restricted rc)
    then Answer.served
    else if is_public_path r.path
    then Answer.served
    else if nonempty (database_of r.escaped_path)
        && not (database_allowed rc (database_of r.escaped_path))
    then Answer.refused_database (database_of r.escaped_path)
    else by_need rc (need_for r)
