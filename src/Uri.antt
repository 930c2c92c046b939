-- ===== src/Uri.antt =====
-- src/lsp/URI.cpp and include/lsp/URI.h, as they are built elsewhere than on Windows. A URI is its
-- text and the places of its components in it. The match of the RFC 3986 pattern is a parameter.
pub mod Percent
pub mod Layout
mod Tests
use slang_server.Common.{
  ℕ, zero, suc, ◌+◌, Bool, true, false, ◌||◌, ◌&&◌, not, List, [], ◌∷◌, ◌++◌, Option, none, some,
  Bytes, equal, bytes_eq, ◌==◌, if◌then◌else◌, is_empty, length, take, drop, codes,
}
use slang_server.Uri.Percent.{decode, Decoding, text, invalid_argument}

-- `scheme_` and its fellows are pairs of a start and a length.
pub record Uri : Type 0 where
  pub scheme_ : ℕ × ℕ
  pub authority_ : ℕ × ℕ
  pub path_ : ℕ × ℕ
  pub query_ : ℕ × ℕ
  pub fragment_ : ℕ × ℕ
  pub underlying_ : Bytes

unfoldable pub empty_uri : Uri
empty_uri = record {
  scheme_ = (0, 0);
  authority_ = (0, 0);
  path_ = (0, 0);
  query_ = (0, 0);
  fragment_ = (0, 0);
  underlying_ = [];
}

-- `std::string_view(underlying_.data() + place.first, place.second)`
unfoldable pub view : Bytes → ℕ × ℕ → Bytes
view underlying (start, size) = take size (drop start underlying)

unfoldable pub scheme : Uri → Bytes
unfolding view
scheme u = view u.underlying_ u.scheme_

unfoldable pub authority : Uri → Bytes
unfolding view
authority u = view u.underlying_ u.authority_

unfoldable pub path : Uri → Bytes
unfolding view
path u = view u.underlying_ u.path_

unfoldable pub query : Uri → Bytes
unfolding view
query u = view u.underlying_ u.query_

unfoldable pub fragment : Uri → Bytes
unfolding view
fragment u = view u.underlying_ u.fragment_

-- A path gets a slash in front if it has none.
unfoldable pub rooted : Bytes → Bytes
rooted [] = b'/' ∷ []
rooted (c ∷ s) = if c == b'/' then c ∷ s else b'/' ∷ c ∷ s

-- The text that `init` has written and how long it is, `pos`.
pub record Writer : Type 0 where
  pub written : Bytes
  pub pos : ℕ

unfoldable pub put : Bytes → Writer → Writer
put s w = record { written = w.written ++ s; pos = w.pos + length s }

-- A component that is written if it has content, and where it stands; `{}` else.
unfoldable pub place : Bytes → Writer → ℕ × ℕ
place s w = if is_empty s then (0, 0) else (w.pos, length s)

unfoldable pub put_before : Bytes → Bytes → Writer → Writer
unfolding put
put_before mark s w = if is_empty s then w else put mark w

abbrev pub start : Writer
start = record { written = []; pos = 0 }

unfoldable pub after_scheme : Bytes → Writer
unfolding put
after_scheme s = if is_empty s then start else put (codes ":") (put s start)

unfoldable pub before_authority : Bytes → Bytes → Writer
unfolding after_scheme put
before_authority s a =
    if not (is_empty a) || equal s (codes "file")
    then put (codes "//") (after_scheme s)
    else after_scheme s

unfoldable pub before_path : Bytes → Bytes → Writer
unfolding before_authority put
before_path s a = put a (before_authority s a)

unfoldable pub before_query : Bytes → Bytes → Bytes → Bytes → Writer
unfolding before_path put_before rooted put
before_query s a p q = put_before (codes "?") q (put (rooted p) (before_path s a))

unfoldable pub before_fragment : Bytes → Bytes → Bytes → Bytes → Bytes → Writer
unfolding before_query put_before put
before_fragment s a p q f = put_before (codes "#") f (put q (before_query s a p q))

unfoldable pub init : Bytes → Bytes → Bytes → Bytes → Bytes → Uri
unfolding before_fragment before_query before_path before_authority place rooted put
init s a p q f = record {
  scheme_ = place s start;
  authority_ = place a (before_authority s a);
  path_ = ((before_path s a).pos, length (rooted p));
  query_ = place q (before_query s a p q);
  fragment_ = place f (before_fragment s a p q f);
  underlying_ = (put f (before_fragment s a p q f)).written;
}

-- `fromFile`, for the path's `generic_string()`.
unfoldable pub from_file : Bytes → Uri
unfolding init empty_uri
from_file file = if is_empty file then empty_uri else init (codes "file") [] file [] []

unfoldable pub str : Uri → Bytes
str u = u.underlying_

-- `operator==`
unfoldable pub same_uri : Uri → Uri → Bool
same_uri u v = equal u.underlying_ v.underlying_

-- What the pattern of `URI::URI(const std::string&)` captures: scheme, authority, path, query and
-- fragment, where a group that takes no part is empty.
pub record Captures : Type 0 where
  pub scheme_text : Bytes
  pub authority_text : Bytes
  pub path_text : Bytes
  pub query_text : Bytes
  pub fragment_text : Bytes

-- The result of the constructor: a URI, or the exception of `decode`.
pub data Parsed : Type 0 where
  parsed : Uri → Parsed
  not_decoded : Parsed

abbrev from_decoded : Bytes → Decoding → Decoding → Decoding → Decoding → Parsed
from_decoded s (text a) (text p) (text q) (text f) = parsed (init s a p q f)
from_decoded s (text a) (text p) (text q) invalid_argument = not_decoded
from_decoded s (text a) (text p) invalid_argument f = not_decoded
from_decoded s (text a) invalid_argument q f = not_decoded
from_decoded s invalid_argument p q f = not_decoded

abbrev from_captures : Option Captures → Parsed
from_captures none = parsed empty_uri
from_captures (some m) =
    from_decoded m.scheme_text (decode m.authority_text) (decode m.path_text) (decode m.query_text)
      (decode m.fragment_text)

unfoldable pub from_string : (Bytes → Option Captures) → Bytes → Parsed
unfolding decode init
from_string match_pattern input = from_captures (match_pattern input)

-- `fromWeb`
unfoldable pub from_web : (Bytes → Option Captures) → Bytes → Parsed
unfolding from_string
from_web match_pattern url = from_string match_pattern (codes "https://" ++ url)
