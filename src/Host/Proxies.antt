-- ===== src/Host/Proxies.antt =====
-- internal/auth/host.go: the client's address behind trusted proxies.
use tablex.Common.{
  [], ℕ, Bool, true, false, List, ◌∷◌, ◌++◌, Option, none, some, ◌==◌, ◌≡◌, ◌≢◌, inl, inr, refl, ap,
  ◌∙◌, arith, Str, append-nil, Bool-cases,
}
use tablex.Text.{Tables, trim_space, split_on, add_first}
use tablex.Text.Split.{Free, split-front, split-all}
use tablex.Host.{client_hop, client_ip, backwards, first_part, blank_or}

backwards-append :
    (xs ys acc : List Str) → backwards (xs ++ ys) acc ≡ backwards ys (backwards xs acc)
backwards-append [] ys acc = refl
backwards-append (x ∷ xs) ys acc = backwards-append xs ys (x ∷ acc)

split-nonempty : (q : ℕ) (f : Str) → (w : Str) × (ws : List Str) × (split_on q f ≡ w ∷ ws)
unfolding split_on
split-nonempty q [] = ([], [], refl)
split-nonempty q (c ∷ f) = elim (Bool-cases (c == q)) [
  | inl e ↦ ([], split_on q f, rw (e, split_on) refl)
  | inr e ↦
      let (w, ws, g) = split-nonempty q f in (c ∷ w, ws, rw (e, split_on) (ap (add_first c) g))
]

-- A comma splits the text behind it from the one in front.
split-append : (q : ℕ) (f s : Str) → split_on q (f ++ (q ∷ s)) ≡ split_on q f ++ split_on q s
unfolding split_on
split-append q [] s = ground arith
split-append q (c ∷ f) s = elim (Bool-cases (c == q)) [
  | inl e ↦ rw (e, split_on) (ap (λ (x : List Str). [] ∷ x) (split-append q f s))
  | inr e ↦
      let (w, ws, g) = split-nonempty q f in rw (e, split_on) (rw (split-append q f s) (rw g refl))
]

abbrev in_front : Option Str → Str → Str
in_front none s = s
in_front (some f) s = f ++ (b',' ∷ s)

abbrev hops_text : List Str → Str
hops_text [] = []
hops_text (h ∷ hs) = b',' ∷ (h ++ hops_text hs)

abbrev front_parts : Option Str → List Str
front_parts none = []
front_parts (some f) = split_on b',' f

abbrev pub AreFree : List Str → Type 0
AreFree [] = Unit {0}
AreFree (h ∷ hs) = Free b',' h × AreFree hs

split-hops :
    (client : Str) (hops : List Str)
    → Free b',' client
    → AreFree hops
    → split_on b',' (client ++ hops_text hops) ≡ client ∷ hops
split-hops client [] f fs = rw (append-nil client) (split-all b',' client f)
split-hops client (h ∷ hs) f (g, gs) =
    split-front b',' client (h ++ hops_text hs) f ∙ ap (◌∷◌ client) (split-hops h hs g gs)

split-front_parts :
    (front : Option Str) (s : Str)
    → split_on b',' (in_front front s) ≡ front_parts front ++ split_on b',' s
split-front_parts none s = refl
split-front_parts (some f) s = split-append b',' f s

blank_lem : (x remote a : Str) → x ≢ [] → blank_or x remote a ≡ a
blank_lem [] remote a h = absurd (h refl)
blank_lem (c ∷ x) remote a h = refl

-- The header: what the client itself sent, if anything, its address as the first proxy saw it, and
-- those of the proxies behind.
abbrev pub forwarded : Option Str → Str → List Str → Str
forwarded front client hops = in_front front (client ++ hops_text hops)

module _ (t : Tables) {IP : Type 0} (parse_ip : Str → Option IP) (trusted : IP → Bool) where
  abbrev pub AreTrusted : List Str → Type 0
  AreTrusted [] = Unit {0}
  AreTrusted (h ∷ hs) =
      ((ip : IP) × (parse_ip (trim_space t h) ≡ some ip) × (trusted ip ≡ true)) × AreTrusted hs

  hop_trusted :
      (remote all h : Str) (parts : List Str) (ip : IP)
      → parse_ip (trim_space t h) ≡ some ip
      → trusted ip ≡ true
      → client_hop t parse_ip trusted remote all (h ∷ parts)
        ≡ client_hop t parse_ip trusted remote all parts
  unfolding client_hop
  hop_trusted remote all h parts ip e f = rw (e, f, client_hop) refl

  hop_client :
      (remote all h : Str) (parts : List Str) (ip : IP)
      → parse_ip (trim_space t h) ≡ some ip
      → trusted ip ≡ false
      → client_hop t parse_ip trusted remote all (h ∷ parts) ≡ trim_space t h
  unfolding client_hop
  hop_client remote all h parts ip e f = rw (e, f, client_hop) refl

  hops_trusted :
      (remote all : Str) (hops parts : List Str)
      → AreTrusted hops
      → client_hop t parse_ip trusted remote all (backwards hops parts)
        ≡ client_hop t parse_ip trusted remote all parts
  hops_trusted remote all [] parts h = refl
  hops_trusted remote all (p ∷ hops) parts ((ip, e, f), hs) =
      hops_trusted remote all hops (p ∷ parts) hs ∙ hop_trusted remote all p parts ip e f

  -- ClientIP behind trusted proxies: where the connected address and the hops of the header behind
  -- `client` are trusted, and `client` is an address that is not, the answer is `client`, trimmed,
  -- whatever stands in front of it: no header that a client sends makes it another. Parsing and
  -- trust are any functions; no hop holds a comma, and the header is not blank.
  pub client_ip-forwarded :
      (remote client : Str) (front : Option Str) (hops : List Str) (r c : IP)
      → parse_ip remote ≡ some r
      → trusted r ≡ true
      → Free b',' client
      → AreFree hops
      → parse_ip (trim_space t client) ≡ some c
      → trusted c ≡ false
      → AreTrusted hops
      → trim_space t (forwarded front client hops) ≢ []
      → client_ip t parse_ip trusted remote (forwarded front client hops) ≡ trim_space t client
  unfolding client_ip
  client_ip-forwarded remote client front hops r c pr tr fc fh pc tc th nb =
      let xff = forwarded front client hops in
      let all = trim_space t (first_part (split_on b',' xff)) in
      let parts : backwards (split_on b',' xff) []
          ≡ backwards hops (client ∷ backwards (front_parts front) []) =
        ap (λ (x : List Str). backwards x []) (split-front_parts front (client ++ hops_text hops))
        ∙ backwards-append (front_parts front) (split_on b',' (client ++ hops_text hops)) []
        ∙ ap (λ (x : List Str). backwards x (backwards (front_parts front) []))
            (split-hops client hops fc fh) in
      let found : client_hop t parse_ip trusted remote all (backwards (split_on b',' xff) [])
          ≡ trim_space t client =
        ap (client_hop t parse_ip trusted remote all) parts
        ∙ hops_trusted remote all hops (client ∷ backwards (front_parts front) []) th
        ∙ hop_client remote all client (backwards (front_parts front) []) c pc tc in
      rw (pr, tr, client_ip) (blank_lem (trim_space t xff) remote _ nb ∙ found)
