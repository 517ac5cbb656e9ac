-- ===== src/Policy/Decision.antt =====
-- internal/server/restrict.go: which requests restricted mode serves.
use tablex.Common.{
  [], List, ◌++◌, Elem, bytes, str_eq, str_mem, length, ltb, ite, sym, Option-cases, Bool-cases, ◌||◌, Bool, true, false, not, ◌&&◌, ◌∷◌, Option, none, some, if◌then◌else◌, ◌≡◌, ◌≢◌, ◌⊎◌, inl, inr,
  refl, ◌∙◌, ap, arith, Str,
}
use mathlib.Core.Logic.{if_pos, if_neg}
use mathlib.Core.Path.{subst}
use tablex.Text.{cut_prefix}
use tablex.Text.Split.{cut_prefix-eq}
use tablex.Policy.{
  is_sso_path, is_static_path, RestrictConfig, restricted, database_allowed, safe_method, is_public_path, database_of, Need,
  Request, need_for, need_of, unclassified, Answer, by_need, nonempty, restrict,
}

-- What a served request fulfils.
abbrev pub Permitted : RestrictConfig → Need → Type 0
Permitted rc nd =
    (nd.console ≡ true → rc.allow_console ≡ true)
    × (nd.write ≡ true → rc.read_only ≡ false)
    × (nd.ddl ≡ true → rc.allow_ddl ≡ true)

by_need-served : (rc : RestrictConfig) (nd : Need) → by_need rc nd ≡ Answer.served → Permitted rc nd
unfolding by_need
by_need-served rc nd h = (λ e. ground arith, λ e. ground arith, λ e. ground arith)

by_need-Permitted :
    (rc : RestrictConfig) (nd : Need) → Permitted rc nd → by_need rc nd ≡ Answer.served
unfolding by_need
by_need-Permitted rc nd (c, w, d) = ground arith

not_served : (x : Str) → Answer.refused_database x ≢ Answer.served
not_served x e = cc

-- The tests of the middleware in their order.
abbrev routed : Bool → Bool → Bool → Bool → Str → RestrictConfig → Need → Answer
routed a b c d x rc nd =
    if not a
    then Answer.served
    else if b
    then Answer.served
    else if c && not d
    then Answer.refused_database x
    else by_need rc nd

routed-served :
    (a b c d : Bool) (x : Str) (rc : RestrictConfig) (nd : Need)
    → routed a b c d x rc nd ≡ Answer.served
    → (a ≡ false) ⊎ (b ≡ true) ⊎ ((c ≡ true → d ≡ true) × Permitted rc nd)
routed-served false b c d x rc nd h = inl refl
routed-served true true c d x rc nd h = inr (inl refl)
routed-served true false true true x rc nd h = inr (inr (λ _. refl, by_need-served rc nd h))
routed-served true false true false x rc nd h = absurd (not_served x h)
routed-served true false false d x rc nd h = inr (inr (λ e. cc, by_need-served rc nd h))

served-routed :
    (a b c d : Bool) (x : Str) (rc : RestrictConfig) (nd : Need)
    → (a ≡ false) ⊎ (b ≡ true) ⊎ ((c ≡ true → d ≡ true) × Permitted rc nd)
    → routed a b c d x rc nd ≡ Answer.served
served-routed a b c d x rc nd (inl e) = rw e refl
served-routed true b c d x rc nd (inr (inl e)) = rw e refl
served-routed false b c d x rc nd (inr (inl e)) = refl
served-routed false b c d x rc nd (inr (inr (f, p))) = refl
served-routed true true c d x rc nd (inr (inr (f, p))) = refl
served-routed true false true d x rc nd (inr (inr (f, p))) = rw (f refl) (by_need-Permitted rc nd p)
served-routed true false false d x rc nd (inr (inr (f, p))) = by_need-Permitted rc nd p

-- No switch is on: nothing is read-only, the console and DDL are allowed, and no database is listed.
pub record IsOpen (rc : RestrictConfig) : Type 0 where
  pub writable : rc.read_only ≡ false
  pub console : rc.allow_console ≡ true
  pub ddl : rc.allow_ddl ≡ true
  pub unlisted : rc.databases ≡ []

-- The paths that anyone may reach: those of the sign-in, the probes and the icon, and all below
-- /static/.
pub data IsPublic : Str → Type 0 where
  login : IsPublic (bytes "/login")
  logout : IsPublic (bytes "/logout")
  healthz : IsPublic (bytes "/healthz")
  favicon : IsPublic (bytes "/favicon.ico")
  metrics : IsPublic (bytes "/metrics")
  sso_start : IsPublic (bytes "/auth/sso/start")
  sso_callback : IsPublic (bytes "/auth/sso/callback")
  static_file : (rest : Str) → IsPublic (bytes "/static/" ++ rest)

-- The methods that change nothing.
pub data IsSafe : Str → Type 0 where
  is_get : IsSafe (bytes "GET")
  is_head : IsSafe (bytes "HEAD")
  is_options : IsSafe (bytes "OPTIONS")

-- What a request needs: what the policy has for its route; without a route, to write and to change
-- schemas if the method is not safe, and else nothing.
pub data Needs (r : Request) : Need → Type 0 where
  by_route : (n : Need) → r.entry ≡ some n → r.pattern ≢ [] → Needs r n
  unknown_unsafe :
      (r.entry ≡ none) ⊎ (r.pattern ≡ [])
      → ¬ IsSafe r.method
      → Needs r (record { write = true; console = false; ddl = true })
  unknown_safe :
      (r.entry ≡ none) ⊎ (r.pattern ≡ [])
      → IsSafe r.method
      → Needs r (record { write = false; console = false; ddl = false })

-- What restricted mode lets through.
abbrev pub Reaches : RestrictConfig → Request → Type 0
Reaches rc r =
    IsOpen rc
    ⊎ IsPublic r.path
    ⊎ ((database_of r.escaped_path ≢ []
          → rc.databases ≢ []
          → Elem (database_of r.escaped_path) rc.databases)
        × ((n : Need) × Needs r n × Permitted rc n))

restricted-IsOpen : (rc : RestrictConfig) → restricted rc ≡ false → IsOpen rc
unfolding restricted
restricted-IsOpen rc h = record {
  writable = ground arith;
  console = ground arith;
  ddl = ground arith;
  unlisted = no_list rc.databases (ground arith);
}
  where
    no_list : (ds : List Str) → ltb 0 (length ds) ≡ false → ds ≡ []
    no_list [] e = refl
    no_list (d ∷ ds) e = absurd (ground arith)

IsOpen-restricted : (rc : RestrictConfig) → IsOpen rc → restricted rc ≡ false
unfolding restricted
IsOpen-restricted rc o =
    let w = o.writable in
    let c = o.console in
    let d = o.ddl in rw (w, c, d, o.unlisted) refl

str_mem-Elem : (n : Str) (xs : List Str) → str_mem n xs ≡ true → Elem n xs
unfolding str_mem
str_mem-Elem n [] h = cc
str_mem-Elem n (x ∷ xs) h = elim (str_eq x n) [
  | yes e ↦ inl e
  | no ne ↦ inr (str_mem-Elem n xs (ground arith))
]

Elem-str_mem : (n : Str) (xs : List Str) → Elem n xs → str_mem n xs ≡ true
unfolding str_mem
Elem-str_mem n [] h = absurd h
Elem-str_mem n (x ∷ xs) h = elim (str_eq x n) [
  | yes e ↦ rw (if_pos _ e) refl
  | no ne ↦ rw (if_neg _ ne) (Elem-str_mem n xs (elim h [ inl e ↦ absurd (ne e) | inr l ↦ l ]))
]

listed_public :
    (p : Str)
    → Elem p
      (bytes "/login"
        ∷ bytes "/logout"
        ∷ bytes "/healthz"
        ∷ bytes "/favicon.ico"
        ∷ bytes "/metrics"
        ∷ [])
    → IsPublic p
listed_public p (inl e) = subst IsPublic e login
listed_public p (inr (inl e)) = subst IsPublic e logout
listed_public p (inr (inr (inl e))) = subst IsPublic e healthz
listed_public p (inr (inr (inr (inl e)))) = subst IsPublic e favicon
listed_public p (inr (inr (inr (inr (inl e))))) = subst IsPublic e metrics
listed_public p (inr (inr (inr (inr (inr e))))) = absurd e

sso_public : (p : Str) → is_sso_path p ≡ true → IsPublic p
unfolding is_sso_path
sso_public p h = elim (str_mem-Elem p (bytes "/auth/sso/start" ∷ bytes "/auth/sso/callback" ∷ []) h) [
  | inl e ↦ subst IsPublic e sso_start
  | inr (inl e) ↦ subst IsPublic e sso_callback
  | inr (inr e) ↦ absurd e
]

static_public : (p : Str) → is_static_path p ≡ true → IsPublic p
unfolding is_static_path
static_public p h = elim (Option-cases (cut_prefix (bytes "/static/") p)) [
  | inl e ↦ absurd (let h' : false ≡ true = rw e at h in cc)
  | inr (rest, e) ↦
      subst IsPublic (sym (cut_prefix-eq (bytes "/static/") p rest e)) (static_file rest)
]

or_last :
    (a b c : Bool) → a ≡ false → b ≡ false → (a || b || c) ≡ true → c ≡ true
or_last a b c e f h = ground arith

is_public_path-IsPublic : (p : Str) → is_public_path p ≡ true → IsPublic p
unfolding is_public_path
is_public_path-IsPublic p h =
    let paths : List Str =
      bytes "/login"
      ∷ bytes "/logout"
      ∷ bytes "/healthz"
      ∷ bytes "/favicon.ico"
      ∷ bytes "/metrics"
      ∷ [] in
    elim (Bool-cases (str_mem p paths)) [
      | inl e ↦ listed_public p (str_mem-Elem p paths e)
      | inr e ↦ elim (Bool-cases (is_sso_path p)) [
        | inl f ↦ sso_public p f
        | inr f ↦ static_public p (or_last (str_mem p paths) (is_sso_path p) (is_static_path p) e f h)
      ]
    ]

IsPublic-is_public_path : (p : Str) → IsPublic p → is_public_path p ≡ true
unfolding is_public_path is_sso_path is_static_path str_mem
IsPublic-is_public_path p login = refl
IsPublic-is_public_path p logout = refl
IsPublic-is_public_path p healthz = refl
IsPublic-is_public_path p favicon = refl
IsPublic-is_public_path p metrics = refl
IsPublic-is_public_path p sso_start = refl
IsPublic-is_public_path p sso_callback = refl
IsPublic-is_public_path p (static_file rest) = refl

safe_method-IsSafe : (m : Str) → safe_method m ≡ true → IsSafe m
unfolding safe_method
safe_method-IsSafe m h = elim (str_mem-Elem m (bytes "GET" ∷ bytes "HEAD" ∷ bytes "OPTIONS" ∷ []) h) [
  | inl e ↦ subst IsSafe e is_get
  | inr (inl e) ↦ subst IsSafe e is_head
  | inr (inr (inl e)) ↦ subst IsSafe e is_options
  | inr (inr (inr e)) ↦ absurd e
]

IsSafe-safe_method : (m : Str) → IsSafe m → safe_method m ≡ true
unfolding safe_method str_mem
IsSafe-safe_method m is_get = refl
IsSafe-safe_method m is_head = refl
IsSafe-safe_method m is_options = refl

-- The test of the database, read off the list.
allowed_listed :
    (rc : RestrictConfig) (name : Str)
    → (nonempty name ≡ true → database_allowed rc name ≡ true)
    → name ≢ []
    → rc.databases ≢ []
    → Elem name rc.databases
unfolding database_allowed
allowed_listed rc [] h n l = absurd (n refl)
allowed_listed rc (c ∷ s) h n l = go rc.databases l (h refl)
  where
    go :
        (ds : List Str)
        → ds ≢ []
        → (if ltb 0 (length ds) then str_mem (c ∷ s) ds else true) ≡ true
        → Elem (c ∷ s) ds
    go [] l h = absurd (l refl)
    go (d ∷ ds) l h =
        let has : ltb 0 (length (d ∷ ds)) ≡ true = ground arith in
        str_mem-Elem (c ∷ s) (d ∷ ds) (rw has at h)

listed_allowed :
    (rc : RestrictConfig) (name : Str)
    → (name ≢ [] → rc.databases ≢ [] → Elem name rc.databases)
    → nonempty name ≡ true
    → database_allowed rc name ≡ true
unfolding database_allowed
listed_allowed rc [] h n = cc
listed_allowed rc (c ∷ s) h n = go rc.databases (h (λ e. cc))
  where
    go :
        (ds : List Str)
        → (ds ≢ [] → Elem (c ∷ s) ds)
        → (if ltb 0 (length ds) then str_mem (c ∷ s) ds else true) ≡ true
    go [] h = refl
    go (d ∷ ds) h =
        let has : ltb 0 (length (d ∷ ds)) ≡ true = ground arith in
        rw has (Elem-str_mem (c ∷ s) (d ∷ ds) (h (λ e. cc)))

need_for-Needs : (r : Request) → Needs r (need_for r)
unfolding need_for need_of
need_for-Needs r = go r.entry r.pattern refl refl
  where
    missing :
        (r.entry ≡ none) ⊎ (r.pattern ≡ [])
        → Needs r (unclassified (not (safe_method r.method)))
    missing m = elim (Bool-cases (safe_method r.method)) [
      | inl e ↦ rw e (unknown_safe m (safe_method-IsSafe r.method e))
      | inr e ↦
          rw e (unknown_unsafe m (λ s. let z = IsSafe-safe_method r.method s in cc))
    ]

    go :
        (o : Option Need) (p : Str)
        → r.entry ≡ o
        → r.pattern ≡ p
        → Needs r (need_of (unclassified (not (safe_method r.method))) o p)
    go none p e f = missing (inl e)
    go (some n) [] e f = missing (inr f)
    go (some n) (c ∷ p) e f = by_route n e (λ g. let z = f in cc)

need_of-missing : (d : Need) (o : Option Need) (p : Str) → (o ≡ none) ⊎ (p ≡ []) → need_of d o p ≡ d
unfolding need_of
need_of-missing d none p h = refl
need_of-missing d (some n) [] h = refl
need_of-missing d (some n) (c ∷ p) (inl e) = absurd cc
need_of-missing d (some n) (c ∷ p) (inr e) = absurd cc

need_of-some : (d n : Need) (p : Str) → p ≢ [] → need_of d (some n) p ≡ n
unfolding need_of
need_of-some d n [] ne = absurd (ne refl)
need_of-some d n (c ∷ p) ne = refl

Needs-need_for : (r : Request) {n : Need} → Needs r n → need_for r ≡ n
unfolding need_for
Needs-need_for r (by_route n e f) =
    rw e (need_of-some (unclassified (not (safe_method r.method))) n r.pattern f)
Needs-need_for r (unknown_unsafe m u) =
    let e : safe_method r.method ≡ false = elim (Bool-cases (safe_method r.method)) [
      | inl t ↦ absurd (u (safe_method-IsSafe r.method t))
      | inr f ↦ f
    ] in
    need_of-missing (unclassified (not (safe_method r.method))) r.entry r.pattern m
    ∙ ap (λ b. unclassified (not b)) e
Needs-need_for r (unknown_safe m s) =
    need_of-missing (unclassified (not (safe_method r.method))) r.entry r.pattern m
    ∙ ap (λ b. unclassified (not b)) (IsSafe-safe_method r.method s)

-- A request gets past restricted mode in exactly these cases: no switch is on, its path is one of
-- those open to anyone, or the database that its path addresses, if any, is listed where a list is
-- set, and all that its route needs is permitted: the console where it runs SQL, no read-only mode
-- where it writes, DDL where it changes schemas; with no route the needs go by the method alone.
pub restrict_served :
    (rc : RestrictConfig) (r : Request)
    → (restrict rc r ≡ Answer.served → Reaches rc r)
      × (Reaches rc r → restrict rc r ≡ Answer.served)
unfolding restrict
restrict_served rc r =
    let name = database_of r.escaped_path in
    (
      λ h. elim (routed-served (restricted rc) (is_public_path r.path) (nonempty name)
          (database_allowed rc name) name rc (need_for r) h) [
        | inl e ↦ inl (restricted-IsOpen rc e)
        | inr (inl e) ↦ inr (inl (is_public_path-IsPublic r.path e))
        | inr (inr (a, p)) ↦
            inr (inr (allowed_listed rc name a, (need_for r, need_for-Needs r, p)))
      ],
      λ h. served-routed (restricted rc) (is_public_path r.path) (nonempty name)
          (database_allowed rc name) name rc (need_for r) (elim h [
            | inl o ↦ inl (IsOpen-restricted rc o)
            | inr (inl p) ↦ inr (inl (IsPublic-is_public_path r.path p))
            | inr (inr (a, (n, k, p))) ↦
                inr (inr (listed_allowed rc name a, rw (Needs-need_for r k) p))
          ]),
    )

restricted_lem :
    (rc : RestrictConfig) → (rc.read_only ≡ true) ⊎ (rc.allow_ddl ≡ false) → restricted rc ≡ true
unfolding restricted
restricted_lem rc (inl e) = ground arith
restricted_lem rc (inr e) = ground arith

need_for-unclassified :
    (r : Request)
    → (r.entry ≡ none) ⊎ (r.pattern ≡ [])
    → safe_method r.method ≡ false
    → need_for r ≡ record { write = true; console = false; ddl = true }
unfolding need_for
need_for-unclassified r missing e =
    need_of-missing (unclassified (not (safe_method r.method))) r.entry r.pattern missing
    ∙ ap (λ b. unclassified (not b)) e

not-Permitted :
    (rc : RestrictConfig)
    → (rc.read_only ≡ true) ⊎ (rc.allow_ddl ≡ false)
    → Permitted rc (record { write = true; console = false; ddl = true })
    → ⊥
not-Permitted rc (inl e) (_, w, _) = let f = w refl in cc
not-Permitted rc (inr e) (_, _, d) = let f = d refl in cc

-- A request that the policy mux has no entry for, or whose pattern is empty, needs all that an
-- unsafe method can: under read-only mode, or where DDL is not allowed, it is not served unless its
-- method is GET, HEAD or OPTIONS or its path is public.
pub unclassified_fails_closed :
    (rc : RestrictConfig) (r : Request)
    → (r.entry ≡ none) ⊎ (r.pattern ≡ [])
    → safe_method r.method ≡ false
    → is_public_path r.path ≡ false
    → (rc.read_only ≡ true) ⊎ (rc.allow_ddl ≡ false)
    → restrict rc r ≢ Answer.served
unclassified_fails_closed rc r missing unsafe private strict e = elim ((restrict_served rc r).0 e) [
  | inl free ↦ absurd (
      let on : restricted rc ≡ true = restricted_lem rc strict in
      let off : restricted rc ≡ false = IsOpen-restricted rc free in cc)
  | inr (inl public) ↦
      absurd (let open_path : is_public_path r.path ≡ true = IsPublic-is_public_path r.path public in cc)
  | inr (inr (_, (n, k, p))) ↦
      let same = sym (Needs-need_for r k) ∙ need_for-unclassified r missing unsafe in
      not-Permitted rc strict (subst (Permitted rc) same p)
]
