-- ===== src/Uri/Tests.antt =====
-- Concrete URIs for src/lsp/URI.cpp.
use slang_server.Common.{
  [], Option, some, Bytes, codes, bytes_eq, ◌≡◌, refl, is_space, is_digit, is_xdigit, is_alnum,
  is_alpha, is_upper, is_lower,
}
use slang_server.Uri.Percent.{
  encode, decode, decode-encode, text, invalid_argument, to_hex, hex_char, is_unreserved, stoi_hex,
}
use slang_server.Uri.{
  scheme, authority, path, query, fragment, rooted, init, str, Captures, from_file, put, put_before,
  after_scheme, before_authority, before_path, before_query, before_fragment,
}
use slang_server.Uri.Layout.{init-views}

a_file : str (from_file (codes "/a/b.sv")) ≡ codes "file:///a/b.sv"
unfolding str from_file put put_before after_scheme before_authority before_path before_query
    before_fragment rooted
a_file = refl

encoded_blank : encode (codes "a b") ≡ codes "a%20b"
unfolding encode is_unreserved is_alnum is_alpha is_digit is_upper is_lower to_hex hex_char
encoded_blank = refl

no_digit : decode (codes "%zz") ≡ invalid_argument
unfolding decode stoi_hex is_xdigit is_digit is_space
no_digit = refl

decode-encode_example : decode (encode (codes "a b/~")) ≡ text (codes "a b/~")
decode-encode_example = decode-encode (codes "a b/~") refl

init-views_example :
    let u = init (codes "https") (codes "x.org") (codes "d") (codes "q=1") [] in
    (scheme u ≡ codes "https")
    × ((authority u ≡ codes "x.org")
        × ((path u ≡ rooted (codes "d")) × ((query u ≡ codes "q=1") × (fragment u ≡ []))))
init-views_example = init-views (codes "https") (codes "x.org") (codes "d") (codes "q=1") []

abbrev match_one : Bytes → Option Captures
match_one input = some (record {
  scheme_text = codes "file";
  authority_text = encode [];
  path_text = encode (codes "/a b");
  query_text = encode [];
  fragment_text = encode [];
})
