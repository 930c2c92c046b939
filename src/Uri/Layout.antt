-- ===== src/Uri/Layout.antt =====
-- Where `URI::init` of src/lsp/URI.cpp puts the components.
use slang_server.Common.{
  true, not, ◌||◌, [], ◌∷◌, ◌++◌, Option, some, Bytes, all, equal, bytes_eq, if◌then◌else◌,
  is_empty, length, length-append, drop-length-append, take-length-append, codes, ◌≡◌, refl, ap,
  sym, ◌∙◌, arith, append_assoc, append-nil, Bool-cases, inl, inr,
}
use slang_server.Uri.Percent.{is_byte, encode, decode-encode}
use slang_server.Uri.{
  view, scheme, authority, path, query, fragment, rooted, Writer, put, place, put_before, start,
  after_scheme, before_authority, before_path, before_query, before_fragment, init, str, Captures,
  parsed, from_string,
}

-- `pos` is the length of what is written.
abbrev IsCounted : Writer → Type 0
IsCounted w = w.pos ≡ length w.written

-- What a writer has written stays in front of what a later one has.
data Grows (v w : Writer) : Type 0 where
  grown : (t : Bytes) → w.written ≡ v.written ++ t → Grows v w

Grows-trans : {u v w : Writer} → Grows u v → Grows v w → Grows u w
Grows-trans {u = u} (grown s e) (grown t h) = grown (s ++ t) (h ∙ rw e (append_assoc u.written s t))

put-Grows : (s : Bytes) (w : Writer) → Grows w (put s w)
unfolding put
put-Grows s w = grown s refl

put-IsCounted : (s : Bytes) (w : Writer) → IsCounted w → IsCounted (put s w)
unfolding put
put-IsCounted s w h = omega (arith, h, length-append w.written s)

put_before-Grows : (mark s : Bytes) (w : Writer) → Grows w (put_before mark s w)
unfolding put_before
put_before-Grows mark [] w = grown [] (sym (append-nil _))
put_before-Grows mark (c ∷ s) w = put-Grows mark w

put_before-IsCounted : (mark s : Bytes) (w : Writer) → IsCounted w → IsCounted (put_before mark s w)
unfolding put_before
put_before-IsCounted mark [] w h = h
put_before-IsCounted mark (c ∷ s) w h = put-IsCounted mark w h

view_at : (before s behind : Bytes) → view (before ++ (s ++ behind)) (length before, length s) ≡ s
unfolding view
view_at before s behind = rw drop-length-append (take-length-append s behind)

view-put :
    (s : Bytes) (w v : Writer)
    → IsCounted w
    → Grows (put s w) v
    → view v.written (w.pos, length s) ≡ s
unfolding put
view-put s w v h (grown t e) = rw e (rw h (rw append_assoc (view_at w.written s t)))

view-place :
    (s : Bytes) (w v : Writer) → IsCounted w → Grows (put s w) v → view v.written (place s w) ≡ s
unfolding place
view-place [] w v h g = unfold view in refl
view-place (c ∷ s) w v h g = view-put (c ∷ s) w v h g

after_scheme-IsCounted : (s : Bytes) → IsCounted (after_scheme s)
unfolding after_scheme
after_scheme-IsCounted [] = refl
after_scheme-IsCounted (c ∷ s) =
    put-IsCounted (codes ":") (put (c ∷ s) start) (put-IsCounted (c ∷ s) start refl)

after_scheme-Grows : (s : Bytes) → Grows (put s start) (after_scheme s)
unfolding after_scheme
after_scheme-Grows [] = unfold put in grown [] refl
after_scheme-Grows (c ∷ s) = put-Grows (codes ":") (put (c ∷ s) start)

before_authority-IsCounted : (s a : Bytes) → IsCounted (before_authority s a)
unfolding before_authority
before_authority-IsCounted s a = elim (Bool-cases (not (is_empty a) || equal s (codes "file"))) [
  | inl e ↦ rw e (put-IsCounted (codes "//") (after_scheme s) (after_scheme-IsCounted s))
  | inr e ↦ rw e (after_scheme-IsCounted s)
]

before_authority-Grows : (s a : Bytes) → Grows (after_scheme s) (before_authority s a)
unfolding before_authority
before_authority-Grows s a = elim (Bool-cases (not (is_empty a) || equal s (codes "file"))) [
  | inl e ↦ rw e (put-Grows (codes "//") (after_scheme s))
  | inr e ↦ rw e (grown [] (sym (append-nil _)))
]

module _ (s a p q f : Bytes) where
  before_path-IsCounted : IsCounted (before_path s a)
  unfolding before_path
  before_path-IsCounted = put-IsCounted a (before_authority s a) (before_authority-IsCounted s a)

  before_query-IsCounted : IsCounted (before_query s a p q)
  unfolding before_query
  before_query-IsCounted =
      put_before-IsCounted (codes "?") q (put (rooted p) (before_path s a))
        (put-IsCounted (rooted p) (before_path s a) before_path-IsCounted)

  before_fragment-IsCounted : IsCounted (before_fragment s a p q f)
  unfolding before_fragment
  before_fragment-IsCounted =
      put_before-IsCounted (codes "#") f (put q (before_query s a p q))
        (put-IsCounted q (before_query s a p q) before_query-IsCounted)

  abbrev whole : Writer
  whole = put f (before_fragment s a p q f)

  from_query : Grows (put q (before_query s a p q)) whole
  unfolding before_fragment
  from_query =
      Grows-trans (put_before-Grows (codes "#") f (put q (before_query s a p q)))
        (put-Grows f (before_fragment s a p q f))

  from_path : Grows (put (rooted p) (before_path s a)) whole
  unfolding before_query
  from_path =
      Grows-trans (put_before-Grows (codes "?") q (put (rooted p) (before_path s a)))
        (Grows-trans (put-Grows q (before_query s a p q)) from_query)

  from_authority : Grows (before_path s a) whole
  from_authority = Grows-trans (put-Grows (rooted p) (before_path s a)) from_path

  from_scheme : Grows (put s start) whole
  unfolding before_path
  from_scheme = Grows-trans (after_scheme-Grows s) (
      Grows-trans (before_authority-Grows s a)
        (Grows-trans (put-Grows a (before_authority s a)) from_authority))

  -- The views of a URI made from its components are the components, the path with a slash in front
  -- if it had none: no view reads beyond its component or into another one.
  pub init-views :
      let u = init s a p q f in
      (scheme u ≡ s)
      × ((authority u ≡ a) × ((path u ≡ rooted p) × ((query u ≡ q) × (fragment u ≡ f))))
  unfolding init scheme authority path query fragment before_path
  init-views = (
    view-place s start whole refl from_scheme,
    (
      view-place a (before_authority s a) whole (before_authority-IsCounted s a) from_authority,
      (
        view-put (rooted p) (before_path s a) whole before_path-IsCounted from_path,
        (
          view-place q (before_query s a p q) whole before_query-IsCounted from_query,
          view-place f (before_fragment s a p q f) whole before_fragment-IsCounted
              (grown [] (sym (append-nil _))),
        ),
      ),
    ),
  )

-- `mark` and the component, where the component has content.
abbrev pub behind_mark : Bytes → Bytes → Bytes
behind_mark mark s = if is_empty s then [] else mark ++ s

-- The recomposition of RFC 3986, section 5.3, where an authority is present if it has content or
-- the scheme is `file`.
abbrev pub recomposed : Bytes → Bytes → Bytes → Bytes → Bytes → Bytes
recomposed s a p q f =
    (if is_empty s then [] else s ++ codes ":")
    ++ ((if not (is_empty a) || equal s (codes "file") then codes "//" ++ a else [])
        ++ (p ++ (behind_mark (codes "?") q ++ behind_mark (codes "#") f)))

put_before-written :
    (mark s : Bytes) (w : Writer)
    → (put s (put_before mark s w)).written ≡ w.written ++ behind_mark mark s
unfolding put_before put
put_before-written mark [] w = refl
put_before-written mark (c ∷ s) w = append_assoc w.written mark (c ∷ s)

after_scheme-written :
    (s : Bytes) → (after_scheme s).written ≡ (if is_empty s then [] else s ++ codes ":")
unfolding after_scheme put
after_scheme-written [] = refl
after_scheme-written (c ∷ s) = refl

before_path-written :
    (s a : Bytes)
    → (before_path s a).written
      ≡ (if is_empty s then [] else s ++ codes ":")
        ++ (if not (is_empty a) || equal s (codes "file") then codes "//" ++ a else [])
unfolding before_path before_authority put
before_path-written s [] = elim (Bool-cases (equal s (codes "file"))) [
  | inl e ↦ rw e (rw after_scheme-written (append_assoc _ (codes "//") []))
  | inr e ↦ rw e (rw after_scheme-written refl)
]
before_path-written s (c ∷ a) = rw after_scheme-written (append_assoc _ (codes "//") (c ∷ a))

-- The text of a URI is the recomposition of its components.
pub init-str : (s a p q f : Bytes) → str (init s a p q f) ≡ recomposed s a (rooted p) q f
unfolding init str before_fragment before_query put
init-str s a p q f =
    put_before-written (codes "#") f (put q (before_query s a p q))
    ∙ (ap (λ t. t ++ behind_mark (codes "#") f)
          (put_before-written (codes "?") q (put (rooted p) (before_path s a))
            ∙ ap (λ t. (t ++ rooted p) ++ behind_mark (codes "?") q) (before_path-written s a))
        ∙ rw append_assoc (rw append_assoc (rw append_assoc refl)))

-- A text whose captures are percent-encoded components is read as the URI of these components: the
-- encoding is undone in every component but the scheme.
pub from_string-encoded :
    (match_pattern : Bytes → Option Captures) (input s a p q f : Bytes)
    → match_pattern input
      ≡ some (record {
        scheme_text = s;
        authority_text = encode a;
        path_text = encode p;
        query_text = encode q;
        fragment_text = encode f;
      })
    → all is_byte a ≡ true
    → all is_byte p ≡ true
    → all is_byte q ≡ true
    → all is_byte f ≡ true
    → from_string match_pattern input ≡ parsed (init s a p q f)
unfolding from_string
from_string-encoded match_pattern input s a p q f h ha hp hq hf = rw h (
    rw (decode-encode a ha)
      (rw (decode-encode p hp) (rw (decode-encode q hq) (rw (decode-encode f hf) refl))))
