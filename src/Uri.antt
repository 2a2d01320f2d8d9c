-- ===== src/Uri.antt =====
-- UriParser: src/common/UriParser.h and src/common/UriParser.cpp.
-- Positions are words of size_t, and `find` gives `npos` where the source's does, so that the
-- wrap-around of `npos + 1` and of the counts is that of the source. `none` is the exception
-- std::out_of_range, which leaves the caller without a result.
pub mod Render
pub mod RoundTrip
pub mod Ports
mod Tests
use cli_cpp.Prelude.{
  ℕ, zero, suc, ◌+◌, ◌-◌, ◌*◌, ◌/◌, ◌%◌, ◌≤◌, ◌<◌, String, ◌≡◌, refl, sym, ap, ◌∙◌, subst, ◌≢◌, ◌↔◌,
  ◌⊎◌, inl, inr, Bool, true, false, not, ◌&&◌, ◌||◌, Option, none, some, List, [], ◌∷◌, ◌++◌, map,
  foldl, append-nil, append_assoc, arith, Str, codes, str_eq, str_lt, str_eq→eq, str_eq_refl,
  ne→str_eq, ltb, leb, ◌==◌, if◌then◌else◌, ltb→lt, lt→ltb, leb→le, le→leb, lt→leb_false, eq→==,
  ne→==, ==→eq, Bool-cases, Option-cases, length, take, drop, length-append, take-length_append,
  drop-length_append, take-all,
}
use cli_cpp.CppString.{npos, add64, sub64, find, substr, substr_from}

-- The fields of the class UriParser.
pub record Uri : Type 0 where
  pub uri : Str
  pub scheme : Str
  pub user : Str
  pub password : Str
  pub host : Str
  pub port : Str
  pub path : Str
  pub query : Str
  pub fragment : Str

-- UriParser()
abbrev pub fresh : Uri
fresh = record {
  uri = [];
  scheme = [];
  user = [];
  password = [];
  host = [];
  port = [];
  path = [];
  query = [];
  fragment = [];
}

-- The delimiters that `parse` looks up before it cuts the text.
pub record Marks : Type 0 where
  pub scheme_delimiter : ℕ
  pub colon : ℕ
  pub ampersand : ℕ
  pub rightbracket : ℕ
  pub slash : ℕ
  pub questionmark : ℕ
  pub hash : ℕ

infixl 5 ◌>>=◌
abbrev ◌>>=◌ {ℓ κ} : {A : Type ℓ} {B : Type κ} → Option A → (A → Option B) → Option B
none >>= f = none
some a >>= f = f a

abbrev is_npos : ℕ → Bool
is_npos i = i == npos

pub locate : Str → Marks
locate u =
    let sd = find u (codes "://") 0 in
    record {
      scheme_delimiter = sd;
      colon = if is_npos sd then find u (codes ":") 0 else find u (codes ":") (add64 sd 1);
      ampersand = find u (codes "@") 0;
      rightbracket = find u (codes "]") 0;
      slash = if is_npos sd then find u (codes "/") 0 else find u (codes "/") (add64 sd 3);
      questionmark = find u (codes "?") 0;
      hash = find u (codes "#") 0;
    }

scheme_of : Str → Marks → Option Str
scheme_of u m = if is_npos m.scheme_delimiter then some [] else substr u 0 m.scheme_delimiter

-- Whether the text has `user:password@`.
has_credentials : Marks → Bool
has_credentials m = not (is_npos m.ampersand) && not (is_npos m.colon) && ltb m.colon m.ampersand

-- The user, the password and the position of the colon behind them.
credentials : Uri → Str → Marks → Option (Str × Str × ℕ)
unfolding has_credentials
credentials self u m =
    if has_credentials m
    then (do
      user ←
          (if is_npos m.scheme_delimiter
            then substr u 0 m.colon
            else substr u (add64 m.scheme_delimiter 3) (sub64 (sub64 m.colon m.scheme_delimiter) 3))
      password ← substr u (add64 m.colon 1) (sub64 (sub64 m.ampersand m.colon) 1)
      some (user, password, find u (codes ":") m.ampersand))
    else some (self.user, self.password, m.colon)

-- Where the host begins, less one.
host_start : Marks → ℕ
host_start m =
    if is_npos m.ampersand && not (is_npos m.scheme_delimiter)
    then add64 m.scheme_delimiter 2
    else m.ampersand

host_colon : Str → Marks → ℕ → ℕ
host_colon u m colon =
    if is_npos m.rightbracket then colon else find u (codes ":") (add64 m.rightbracket 1)

-- The host and the port.
authority : Uri → Str → ℕ → ℕ → ℕ → Option (Str × Str)
authority self u ampersand colon slash =
    if not (is_npos colon) && not (is_npos slash)
    then (do
      host ← substr u (add64 ampersand 1) (sub64 (sub64 colon ampersand) 1)
      port ← substr u (add64 colon 1) (sub64 (sub64 slash colon) 1)
      some (host, port))
    else if not (is_npos slash)
    then (do
      host ← substr u (add64 ampersand 1) (sub64 (sub64 slash ampersand) 1)
      some (host, self.port))
    else if not (is_npos colon)
    then (do
      host ← substr u (add64 ampersand 1) (sub64 (sub64 colon ampersand) 1)
      port ← substr_from u (sub64 (sub64 colon ampersand) 1)
      some (host, port))
    else (do host ← substr_from u (add64 ampersand 1); some (host, self.port))

path_of : Uri → Str → Marks → Option Str
path_of self u m =
    if is_npos m.slash
    then some self.path
    else if not (is_npos m.questionmark)
    then substr u (add64 m.slash 1) (sub64 (sub64 m.questionmark m.slash) 1)
    else if not (is_npos m.hash)
    then substr u (add64 m.slash 1) (sub64 (sub64 m.hash m.slash) 1)
    else substr_from u (add64 m.slash 1)

query_of : Uri → Str → Marks → Option Str
query_of self u m =
    if is_npos m.questionmark
    then some self.query
    else if not (is_npos m.hash)
    then substr u (add64 m.questionmark 1) (sub64 (sub64 m.hash m.questionmark) 1)
    else substr_from u (add64 m.questionmark 1)

fragment_of : Uri → Str → Marks → Option Str
fragment_of self u m = if is_npos m.hash then some self.fragment else substr_from u (add64 m.hash 1)

cut : Uri → Str → Marks → Option Uri
cut self u m = do
  scheme ← scheme_of u m
  (user, password, colon) ← credentials self u m
  (host, port) ← authority self u (host_start m) (host_colon u m colon) m.slash
  path ← path_of self u m
  query ← query_of self u m
  fragment ← fragment_of self u m
  some (record {
    uri = u;
    scheme = scheme;
    user = user;
    password = password;
    host = host;
    port = port;
    path = path;
    query = query;
    fragment = fragment;
  })

pub parse : Uri → Str → Option Uri
unfolding cut
parse self u = cut self u (locate u)
