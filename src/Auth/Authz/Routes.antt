-- ===== src/Auth/Authz/Routes.antt =====
-- The REST routes that auth/authz_mapping.go has an entry for, and those of main.go that it has not.
use Prim.Native.String
use iroum_ax.Prelude.{
  String, ℕ, Bool, true, false, ◌&&◌, ◌||◌, and-true, if◌then◌else◌, List, [], ◌∷◌, ◌==◌, ◌≡◌, refl,
  arith, Memᴰ, Bool-cases, inl, inr,
}
use text.Mathlib.TextEquality.{eq_iff}
use Prim.Native.Char.{code}
use text.Mathlib.TextLemmas.{cons-append}
use iroum_ax.Prelude.Text.{eqb, has_prefix}
use iroum_ax.Auth.Mapping.{
  RestEntry, rest_permission_table, entry_matches, find_entry, lookup_rest_permission,
}
use iroum_ax.Auth.Http.{Request, Handler, plain}
use iroum_ax.Auth.Authz.{mapping_missing_response, rest_authz_middleware}

-- The roots of main.go's routes that are behind the authorization and have no entry.
abbrev pub unmapped_roots : List String
unmapped_roots =
    "/api/v1/scores" ∷ "/api/v1/evidences" ∷ "/api/v1/reviews" ∷ "/api/v1/reports"
    ∷ "/api/v1/rubrics" ∷ "/api/v1/audit-logs" ∷ "/api/v1/eval-items" ∷ []

-- The texts have different characters at some place that both have.
diverges : String → String → Bool
diverges String.[] t = false
diverges (String.◌∷◌ c s) String.[] = false
diverges (String.◌∷◌ c s) (String.◌∷◌ d t) = if eqb (code c) (code d) then diverges s t else true

has_prefix-diverges :
    (root rest p : String) → diverges root p ≡ true → has_prefix (String.◌++◌ root rest) p ≡ false
unfolding diverges has_prefix
has_prefix-diverges String.[] rest p h = absurd (cc h)
has_prefix-diverges (String.◌∷◌ c s) rest String.[] h = absurd (cc h)
has_prefix-diverges (String.◌∷◌ c s) rest (String.◌∷◌ d t) h =
    elim (Bool-cases (eqb (code c) (code d))) [
      | inl same ↦ rw (cons-append, same) (has_prefix-diverges s rest t (rw same at h))
      | inr other ↦ rw (cons-append, other)
    ]

eqb_refl : (n : ℕ) → eqb n n ≡ true
eqb_refl n = ground arith

has_prefix_refl : (p : String) → has_prefix p p ≡ true
unfolding has_prefix
has_prefix_refl String.[] = refl
has_prefix_refl (String.◌∷◌ c p) = rw (eqb_refl, has_prefix_refl p)

equal-diverges :
    (root rest p : String) → diverges root p ≡ true → (String.◌++◌ root rest == p) ≡ false
equal-diverges root rest p h = elim (Bool-cases (String.◌++◌ root rest == p)) [
  | inl same ↦
      let path : String.◌++◌ root rest ≡ p = (eq_iff (String.◌++◌ root rest) p).0 same in
      let starts : has_prefix (String.◌++◌ root rest) p ≡ true = rw path (has_prefix_refl p) in
      absurd (cc (starts, has_prefix-diverges root rest p h))
  | inr other ↦ other
]

-- No path below the root can take the entry.
apart : String → RestEntry → Bool
apart root e = e.is_prefix && e.path_prefix == "" || diverges root e.path_prefix

all_apart : String → List RestEntry → Bool
all_apart root [] = true
all_apart root (e ∷ es) = apart root e && all_apart root es

entry_matches-apart :
    (method root rest : String) (e : RestEntry)
    → apart root e ≡ true
    → entry_matches method (String.◌++◌ root rest) e ≡ false
unfolding entry_matches apart
entry_matches-apart method root rest e h = elim (Bool-cases (e.is_prefix && e.path_prefix == "")) [
  | inl every ↦ rw every
  | inr some_path ↦
      let away : diverges root e.path_prefix ≡ true = rw some_path at h in
      rw
        (
          some_path,
          has_prefix-diverges root rest e.path_prefix away,
          equal-diverges root rest e.path_prefix away,
        )
        (ground arith)
]

find_entry-apart :
    (method root rest : String) (es : List RestEntry)
    → all_apart root es ≡ true
    → find_entry method (String.◌++◌ root rest) es
      ≡ record { perm = ""; bypass = false; found = false }
unfolding find_entry all_apart
find_entry-apart method root rest [] h = refl
find_entry-apart method root rest (e ∷ es) h =
    let (here, there) = and-true (apart root e) (all_apart root es) h in
    rw (entry_matches-apart method root rest e here) (find_entry-apart method root rest es there)

roots_apart : List String → Bool
roots_apart [] = true
roots_apart (root ∷ roots) = all_apart root rest_permission_table && roots_apart roots

mem-roots_apart :
    (root : String) (roots : List String)
    → roots_apart roots ≡ true
    → Memᴰ root roots
    → all_apart root rest_permission_table ≡ true
unfolding roots_apart
mem-roots_apart root [] h mem = elim mem [ ]
mem-roots_apart root (q ∷ roots) h (Memᴰ.head e) =
    rw e (and-true (all_apart q rest_permission_table) (roots_apart roots) h).0
mem-roots_apart root (q ∷ roots) h (Memᴰ.tail mem) =
    mem-roots_apart root roots
      (and-true (all_apart q rest_permission_table) (roots_apart roots) h).1 mem

unmapped-apart :
    (root : String) → Memᴰ root unmapped_roots → all_apart root rest_permission_table ≡ true
unfolding roots_apart all_apart apart diverges
unmapped-apart root h = mem-roots_apart root unmapped_roots refl h

-- With authorization on, the authorization middleware answers a request whose path begins with one of
-- the roots /api/v1/scores, evidences, reviews, reports, rubrics, audit-logs and eval-items, and whose
-- method is neither HEAD nor OPTIONS, with 503 instead of calling the handler behind it.
pub unmapped_unavailable :
    (recorder : Bool) (next : Handler) (r : Request) (root rest : String)
    → Memᴰ root unmapped_roots
    → r.path ≡ String.◌++◌ root rest
    → (r.method == "HEAD") ≡ false
    → (r.method == "OPTIONS") ≡ false
    → rest_authz_middleware recorder true next r ≡ plain mapping_missing_response
unfolding rest_authz_middleware lookup_rest_permission
unmapped_unavailable recorder next r root rest h path not_head not_options = rw (
  not_head,
  not_options,
  path,
  find_entry-apart r.method root rest rest_permission_table (unmapped-apart root h),
)
