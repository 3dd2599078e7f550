-- ===== src/Lease/ClientName/RoundTrip.antt =====
-- A client id is its kind, or its kind and its name joined by a colon, in both directions.
use Prim.Native.Char.{Char, code}
use Prim.Native.String
use text.Mathlib.TextEquality.{Char-path}
use text.Mathlib.TextLemmas.{cons-append, nil-append}
use eyedebugger.Prelude.{
  ◌≡◌, ◌≢◌, refl, sym, ap, ◌∙◌, if◌then◌else◌, String, Bool, true, false, ◌⊎◌, inl, inr, some,
  arith, ◌==◌, ==_iff, Bool-cases, eq_iff,
}
use eyedebugger.Api.{Client, kind_agent, kind_human}
use eyedebugger.Lease.ClientName.{parse_client, cut_colon, valid_client_name}

abbrev colon : Char
colon = ":"

-- KIND:NAME
abbrev pub joined : String → String → String
joined kind name = String.◌++◌ kind (String.◌∷◌ colon name)

cut_colon-found : (s : String) → (cut_colon s).2 ≡ true → s ≡ joined (cut_colon s).0 (cut_colon s).1
unfolding cut_colon
cut_colon-found String.[] h = cc
cut_colon-found (String.◌∷◌ c s) h = elim (Bool-cases (code c == 58)) [
  | inl here ↦
      let e : c ≡ colon = Char-path c colon ((==_iff (code c) 58).0 here) in
      rw here (ap (λ d. String.◌∷◌ d s) e ∙ sym (nil-append (String.◌∷◌ colon s)))
  | inr later ↦ rw later (
      ap (String.◌∷◌ c) (cut_colon-found s (rw later at h))
      ∙ sym (cons-append c (cut_colon s).0 (String.◌∷◌ colon (cut_colon s).1)))
]

cut_colon-none : (s : String) → (cut_colon s).2 ≡ false → (cut_colon s).0 ≡ s
unfolding cut_colon
cut_colon-none String.[] h = refl
cut_colon-none (String.◌∷◌ c s) h = elim (Bool-cases (code c == 58)) [
  | inl here ↦ cc (rw here at h)
  | inr later ↦ rw later (ap (String.◌∷◌ c) (cut_colon-none s (rw later at h)))
]

-- A client id other than the empty one is taken as it is: its kind is agent or human, and it is
-- the kind alone, or the kind, a colon and a valid name.
pub parse_client-form :
    (s : String) (c : Client)
    → s ≢ ""
    → parse_client s ≡ some c
    → (c.id ≡ s)
      × ((c.kind ≡ kind_agent) ⊎ (c.kind ≡ kind_human))
      × ((s ≡ c.kind) ⊎ ((s ≡ joined c.kind c.name) × (valid_client_name c.name ≡ true)))
unfolding parse_client
parse_client-form s c h e = ground (
  arith,
  eq_iff s "",
  eq_iff (cut_colon s).0 kind_agent,
  eq_iff (cut_colon s).0 kind_human,
  cut_colon-found s,
  cut_colon-none s,
)

has_colon : String → Bool
has_colon String.[] = false
has_colon (String.◌∷◌ c s) = if code c == 58 then true else has_colon s

cut_colon-joined :
    (kind name : String)
    → has_colon kind ≡ false
    → cut_colon (joined kind name) ≡ (kind, name, true)
unfolding cut_colon has_colon
cut_colon-joined String.[] name h = rw (nil-append (String.◌∷◌ colon name)) refl
cut_colon-joined (String.◌∷◌ c s) name h = elim (Bool-cases (code c == 58)) [
  | inl here ↦ cc (rw here at h)
  | inr later ↦
      rw (cons-append c s (String.◌∷◌ colon name), later)
        (rw (cut_colon-joined s name (rw later at h)))
]

joined-ne-empty : (kind name : String) → has_colon kind ≡ false → joined kind name ≢ ""
joined-ne-empty kind name h e = cc (
    ap (λ (r : String × String × Bool). r.2)
      (sym (cut_colon-joined kind name h) ∙ ap cut_colon e ∙ empty))
  where
    empty : cut_colon "" ≡ ("", "", false)
    empty = unfold cut_colon in refl

-- Printing and parsing: a kind, agent or human, and a valid name joined by a colon parse to the
-- client of that kind and name; the kind alone parses to the client with no name.
pub parse_client-joined :
    (kind name : String)
    → (kind ≡ kind_agent) ⊎ (kind ≡ kind_human)
    → valid_client_name name ≡ true
    → (parse_client (joined kind name)
        ≡ some (record { id = joined kind name; kind = kind; name = name }))
      × (parse_client kind ≡ some (record { id = kind; kind = kind; name = "" }))
parse_client-joined kind name k valid = (both, alone k)
  where
    plain : (kind ≡ kind_agent) ⊎ (kind ≡ kind_human) → has_colon kind ≡ false
    plain (inl e) = rw e (unfold has_colon in refl)
    plain (inr e) = rw e (unfold has_colon in refl)

    both :
        parse_client (joined kind name)
        ≡ some (record { id = joined kind name; kind = kind; name = name })
    both =
        unfold parse_client in
        ground (
          arith,
          cut_colon-joined kind name (plain k),
          joined-ne-empty kind name (plain k),
          eq_iff (joined kind name) "",
          eq_iff kind kind_agent,
          eq_iff kind kind_human,
        )

    alone :
        (kind ≡ kind_agent) ⊎ (kind ≡ kind_human)
        → parse_client kind ≡ some (record { id = kind; kind = kind; name = "" })
    alone (inl e) = rw e (unfold parse_client cut_colon in refl)
    alone (inr e) = rw e (unfold parse_client cut_colon in refl)
