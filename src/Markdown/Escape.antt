-- ===== src/Markdown/Escape.antt =====
-- How a markdown reader takes the backslashes of `escapeMarkdownLine` of src/util/Markdown.cpp.
use slang_server.Common.{
  ℕ, Bool, true, false, ◌||◌, [], ◌∷◌, ◌++◌, Bytes, within, ◌==◌, if◌then◌else◌, ◌≡◌, refl, ap,
  arith, sym, append-nil, ◌∙◌, inl, inr, Bool-cases,
}
use slang_server.Markdown.Rules.{needs_leading_escape, escape_from, escape_markdown_line}

-- The ASCII punctuation characters of CommonMark.
abbrev pub is_punctuation : ℕ → Bool
is_punctuation c = within 33 47 c || within 58 64 c || within 91 96 c || within 123 126 c

-- A backslash before a punctuation character stands for that character; the flag says that the
-- byte before was such a backslash.
unfoldable pub unescape : Bool → Bytes → Bytes
unescape true [] = b'\\' ∷ []
unescape false [] = []
unescape true (c ∷ s) =
    if is_punctuation c then c ∷ unescape false s else b'\\' ∷ c ∷ unescape false s
unescape false (c ∷ s) = if c == b'\\' then unescape true s else c ∷ unescape false s

differs : (c d : ℕ) → is_punctuation c ≡ false → is_punctuation d ≡ true → (c == d) ≡ false
differs c d h k = elim (Bool-cases (c == d)) [
  | inl same ↦ let e : c ≡ d = ground arith in cc (h, k, e)
  | inr e ↦ e
]

others_stay :
    (c : ℕ) (before after : Bytes) (b : Bool)
    → is_punctuation c ≡ false
    → needs_leading_escape c before after b ≡ false
unfolding needs_leading_escape
others_stay c before after b p = rw (differs c b'\\' p refl) (
    rw (differs c b'`' p refl) (
      rw (differs c b'~' p refl) (
        rw (differs c b'#' p refl) (
          rw (differs c b']' p refl) (
            rw (differs c b'=' p refl) (
              rw (differs c b'_' p refl) (
                rw (differs c b'-' p refl) (
                  rw (differs c b'+' p refl) (
                    rw (differs c b'*' p refl) (
                      rw (differs c b'<' p refl) (
                        rw (differs c b'>' p refl) (
                          rw (differs c b'&' p refl) (
                            rw (differs c b'.' p refl)
                              (rw (differs c b')' p refl) refl))))))))))))))

punctuation_escaped :
    (c : ℕ) (before after : Bytes)
    → needs_leading_escape c before after true ≡ true
    → is_punctuation c ≡ true
punctuation_escaped c before after h = elim (Bool-cases (is_punctuation c)) [
  | inl p ↦ p
  | inr p ↦ cc (h, others_stay c before after true p)
]

backslash_escaped :
    (before after : Bytes) (b : Bool) → needs_leading_escape b'\\' before after b ≡ true
unfolding needs_leading_escape
backslash_escaped before after b = refl

plain_unescaped :
    (c : ℕ) (before after s : Bytes)
    → needs_leading_escape c before after true ≡ false
    → unescape false (c ∷ s) ≡ c ∷ unescape false s
unfolding unescape
plain_unescaped c before after s h = ground (arith, backslash_escaped before after true)

escaped_unescaped :
    (c : ℕ) (before after s : Bytes)
    → needs_leading_escape c before after true ≡ true
    → unescape false (b'\\' ∷ c ∷ s) ≡ c ∷ unescape false s
unfolding unescape
escaped_unescaped c before after s h = rw (punctuation_escaped c before after h) refl

from-unescape :
    (line before behind : Bytes)
    → unescape false (escape_from before line ++ behind) ≡ line ++ unescape false behind
unfolding unescape escape_from
from-unescape [] before behind = refl
from-unescape (c ∷ line) before behind =
    let later = escape_from (before ++ c ∷ []) line ++ behind in
    let rest = ap (◌∷◌ c) (from-unescape line (before ++ c ∷ []) behind) in
    elim (Bool-cases (needs_leading_escape c before line true)) [
      | inl e ↦ rw e (escaped_unescaped c before line later e ∙ rest)
      | inr e ↦ rw e (plain_unescaped c before line later e ∙ rest)
    ]

-- The escaped line, with anything behind it.
pub escaped-unescape :
    (line behind : Bytes)
    → unescape false (escape_markdown_line line ++ behind) ≡ line ++ unescape false behind
unfolding escape_markdown_line
escaped-unescape line behind = from-unescape line [] behind

-- A reader that drops the backslash before each punctuation character reads an escaped line as the
-- line itself: nothing is lost and no backslash of the line is taken for an escape.
pub escape_markdown_line-unescape :
    (line : Bytes) → unescape false (escape_markdown_line line) ≡ line
escape_markdown_line-unescape line =
    ap (unescape false) (sym (append-nil (escape_markdown_line line)))
    ∙ (escaped-unescape line [] ∙ unfold unescape in append-nil line)
