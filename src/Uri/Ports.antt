-- ===== src/Uri/Ports.antt =====
-- src/common/UriParser.cpp on broker URLs without credentials, `scheme://host:port/path`, with and without the path.
use cli_cpp.Prelude.{
  ℕ, ◌+◌, ◌-◌, ◌<◌, ◌≡◌, refl, some, [], ◌++◌, append_assoc, arith, Str, codes, length, drop,
  length-append,
}
use cli_cpp.CppString.{npos, find, substr, add64, sub64, not_npos, add64_small, sub64_small}
use cli_cpp.CppString.Find.{Free, Free-append, find-append, find-pattern, find-Free}
use cli_cpp.CppString.Substr.{substr-append, substr_from-append, substr_from-drop}
use cli_cpp.Uri.{
  Uri, Marks, parse, locate, scheme_of, credentials, host_start, host_colon, authority, path_of,
  query_of, fragment_of,
}
use cli_cpp.Uri.Render.{IsPlain}

-- scheme://host:port and what follows the port
abbrev pub broker_url : Str → Str → Str → Str → Str
broker_url scheme host port rest =
    scheme ++ (codes "://" ++ (host ++ (codes ":" ++ (port ++ rest))))

-- The parts hold no delimiter, and the rest neither an at sign nor a bracket, question mark or hash.
pub record IsBrokerUrl (scheme host port rest : Str) : Type 0 where
  pub scheme_plain : IsPlain scheme
  pub host_plain : IsPlain host
  pub port_plain : IsPlain port
  pub rest_no_at : Free b'@' rest
  pub rest_no_bracket : Free b']' rest
  pub rest_no_question : Free b'?' rest
  pub rest_no_hash : Free b'#' rest
  pub fits : length (broker_url scheme host port rest) < npos

module _ (scheme host port rest : Str) (h : IsBrokerUrl scheme host port rest) where
  open h use {
    scheme_plain, host_plain, port_plain, rest_no_at, rest_no_bracket, rest_no_question,
    rest_no_hash, fits,
  }

  colon_at : ℕ
  colon_at = length scheme + 3 + length host

  port_end : ℕ
  unfolding colon_at
  port_end = colon_at + 1 + length port

  bound : port_end + length rest < npos
  unfolding port_end
  bound = omega (arith, fits, length-append {0})

  marks : ℕ → Marks
  marks slash = record {
    scheme_delimiter = length scheme;
    colon = colon_at;
    ampersand = npos;
    rightbracket = npos;
    slash = slash;
    questionmark = npos;
    hash = npos;
  }

  -- The slash of the rest, if it has one, is looked for behind the scheme.
  locate-broker_url :
      (slash : ℕ)
      → find (broker_url scheme host port rest) (codes "/") (length scheme + 3) ≡ slash
      → locate (broker_url scheme host port rest) ≡ marks slash
  unfolding locate marks colon_at port_end
  locate-broker_url slash e = rw (
    find-pattern [] scheme _ b':' (codes "//") 0 (length scheme)
        {s = broker_url scheme host port rest} scheme_plain.no_colon refl refl (omega arith),
    not_npos (length scheme) (omega (arith, bound)),
    add64_small (length scheme) 1 (omega (arith, bound)),
    add64_small (length scheme) 3 (omega (arith, bound)),
    find-append (scheme ++ codes ":") (codes "//" ++ host) (port ++ rest) b':' (length scheme + 1)
        colon_at {s = broker_url scheme host port rest}
        (omega arith, (omega arith, host_plain.no_colon)) (simp append_assoc)
        (omega (arith, length-append {0})) (omega (arith, length-append {0})),
    find-Free [] (broker_url scheme host port rest) b'@' [] 0 {s = broker_url scheme host port rest}
        (search (Free-append, arith) depth 9) refl refl,
    find-Free [] (broker_url scheme host port rest) b']' [] 0 {s = broker_url scheme host port rest}
        (search (Free-append, arith) depth 9) refl refl,
    find-Free [] (broker_url scheme host port rest) b'?' [] 0 {s = broker_url scheme host port rest}
        (search (Free-append, arith) depth 9) refl refl,
    find-Free [] (broker_url scheme host port rest) b'#' [] 0 {s = broker_url scheme host port rest}
        (search (Free-append, arith) depth 9) refl refl,
    e,
  )

  scheme_of-broker_url :
      (slash : ℕ) → scheme_of (broker_url scheme host port rest) (marks slash) ≡ some scheme
  unfolding scheme_of marks colon_at port_end
  scheme_of-broker_url slash =
      rw (not_npos (length scheme) (omega (arith, bound)))
        (substr-append [] scheme _ 0 (length scheme) refl refl refl)

  credentials-broker_url :
      (self : Uri) (slash : ℕ)
      → credentials self (broker_url scheme host port rest) (marks slash)
        ≡ some (self.user, self.password, colon_at)
  unfolding credentials marks
  credentials-broker_url self slash = refl

  host_start-broker_url : (slash : ℕ) → host_start (marks slash) ≡ length scheme + 2
  unfolding host_start marks colon_at port_end
  host_start-broker_url slash = rw (
    not_npos (length scheme) (omega (arith, bound)),
    add64_small (length scheme) 2 (omega (arith, bound)),
  )

  host_text :
      substr
        (broker_url scheme host port rest)
        (add64 (length scheme + 2) 1)
        (sub64 (sub64 colon_at (length scheme + 2)) 1)
      ≡ some host
  unfolding colon_at port_end
  host_text =
      substr-append (scheme ++ codes "://") host (codes ":" ++ (port ++ rest)) _ _
        (simp append_assoc) (omega (arith, bound, length-append {0})) (omega (arith, bound))

  host_colon-broker_url :
      (slash : ℕ) → host_colon (broker_url scheme host port rest) (marks slash) colon_at ≡ colon_at
  unfolding host_colon marks
  host_colon-broker_url slash = refl

  port_text :
      substr
        (broker_url scheme host port rest)
        (add64 colon_at 1)
        (sub64 (sub64 port_end colon_at) 1)
      ≡ some port
  unfolding colon_at port_end
  port_text =
      substr-append (scheme ++ (codes "://" ++ (host ++ codes ":"))) port rest _ _
        (simp append_assoc) (omega (arith, bound, length-append {0})) (omega (arith, bound))

  -- With the slash behind the port, host and port are the texts between the delimiters.
  authority_slash :
      (self : Uri)
      → authority self
          (broker_url scheme host port rest)
          (length scheme + 2)
          colon_at
          (marks port_end).slash
        ≡ some (host, port)
  unfolding authority marks
  authority_slash self = rw (
    not_npos colon_at (unfold colon_at port_end in omega (arith, bound)),
    not_npos port_end (unfold port_end in omega (arith, bound)),
    host_text,
    port_text,
  )

  -- Without a slash the port is cut at the length of the host.
  authority_no_slash :
      (self : Uri)
      → authority self
          (broker_url scheme host port rest)
          (length scheme + 2)
          colon_at
          (marks npos).slash
        ≡ some (host, drop (length host) (broker_url scheme host port rest))
  unfolding authority marks
  authority_no_slash self = rw (
    not_npos colon_at (unfold colon_at port_end in omega (arith, bound)),
    host_text,
    sub64_small colon_at (length scheme + 2) (unfold colon_at in omega arith)
        (unfold colon_at port_end in omega (arith, bound)),
    sub64_small (colon_at - (length scheme + 2)) 1 (unfold colon_at in omega arith)
        (unfold colon_at port_end in omega (arith, bound)),
    count,
    substr_from-drop (broker_url scheme host port rest) (length host)
        (omega (arith, length-append {0})) (omega (arith, fits)),
  )
    where
      count : colon_at - (length scheme + 2) - 1 ≡ length host
      count = unfold colon_at in omega arith

  query_of-broker_url :
      (self : Uri) (slash : ℕ)
      → query_of self (broker_url scheme host port rest) (marks slash) ≡ some self.query
  unfolding query_of marks
  query_of-broker_url self slash = refl

  fragment_of-broker_url :
      (self : Uri) (slash : ℕ)
      → fragment_of self (broker_url scheme host port rest) (marks slash) ≡ some self.fragment
  unfolding fragment_of marks
  fragment_of-broker_url self slash = refl

  path_of-no_slash :
      (self : Uri) → path_of self (broker_url scheme host port rest) (marks npos) ≡ some self.path
  unfolding path_of marks
  path_of-no_slash self = refl

module _ (scheme host port path : Str) (h : IsBrokerUrl scheme host port (codes "/" ++ path)) where
  slash_found :
      find (broker_url scheme host port (codes "/" ++ path)) (codes "/") (length scheme + 3)
      ≡ port_end scheme host port (codes "/" ++ path) h
  unfolding port_end
  slash_found =
      find-append (scheme ++ codes "://") (host ++ (codes ":" ++ port)) path b'/'
        (length scheme + 3) _ {s = broker_url scheme host port (codes "/" ++ path)}
        (search (Free-append, arith)) (simp append_assoc) (omega (arith, length-append {0}))
        (omega (arith, length-append {0}))

  path_text :
      (self : Uri)
      → path_of self (broker_url scheme host port (codes "/" ++ path)) (
          marks scheme host port
            (codes "/" ++ path)
            h
            (port_end scheme host port (codes "/" ++ path) h))
        ≡ some path
  unfolding path_of marks port_end
  path_text self =
      rw
        (not_npos (length scheme + 3 + length host + 1 + length port)
          (omega (arith, bound scheme host port (codes "/" ++ path) h)))
        (substr_from-append
          (scheme ++ (codes "://" ++ (host ++ (codes ":" ++ (port ++ codes "/"))))) path _
          (simp append_assoc)
          (omega (arith, bound scheme host port (codes "/" ++ path) h, length-append {0}))
          (omega (arith, bound scheme host port (codes "/" ++ path) h)))

-- A broker URL scheme://host:port/path without credentials, query and fragment, whose parts hold
-- no delimiter that would end them, gives its scheme, host, port and path; the other fields of
-- the parser stay as they were.
pub parse-broker_url :
    (self : Uri) (scheme host port path : Str)
    → IsBrokerUrl scheme host port (codes "/" ++ path)
    → parse self (broker_url scheme host port (codes "/" ++ path))
      ≡ some (record self {
        uri = broker_url scheme host port (codes "/" ++ path);
        scheme = scheme;
        host = host;
        port = port;
        path = path;
      })
unfolding parse
parse-broker_url self scheme host port path h = rw (
  locate-broker_url scheme host port (codes "/" ++ path) h
      (port_end scheme host port (codes "/" ++ path) h) (slash_found scheme host port path h),
  scheme_of-broker_url scheme host port (codes "/" ++ path) h
      (port_end scheme host port (codes "/" ++ path) h),
  credentials-broker_url scheme host port (codes "/" ++ path) h self
      (port_end scheme host port (codes "/" ++ path) h),
  host_start-broker_url scheme host port (codes "/" ++ path) h
      (port_end scheme host port (codes "/" ++ path) h),
  host_colon-broker_url scheme host port (codes "/" ++ path) h
      (port_end scheme host port (codes "/" ++ path) h),
  authority_slash scheme host port (codes "/" ++ path) h self,
  path_text scheme host port path h self,
  query_of-broker_url scheme host port (codes "/" ++ path) h self
      (port_end scheme host port (codes "/" ++ path) h),
  fragment_of-broker_url scheme host port (codes "/" ++ path) h self
      (port_end scheme host port (codes "/" ++ path) h),
)

-- A broker URL scheme://host:port without a path gives the scheme and the host, and as the port
-- the whole URL without its first bytes, as many as the host has.
pub parse-no_path :
    (self : Uri) (scheme host port : Str)
    → IsBrokerUrl scheme host port []
    → parse self (broker_url scheme host port [])
      ≡ some (record self {
        uri = broker_url scheme host port [];
        scheme = scheme;
        host = host;
        port = drop (length host) (broker_url scheme host port []);
      })
unfolding parse
parse-no_path self scheme host port h = rw (
  locate-broker_url scheme host port [] h npos (
      find-Free (scheme ++ codes "://") (host ++ (codes ":" ++ (port ++ []))) b'/' []
        (length scheme + 3) {s = broker_url scheme host port []} (search (Free-append, arith))
        (simp append_assoc) (omega (arith, length-append {0}))),
  scheme_of-broker_url scheme host port [] h npos,
  credentials-broker_url scheme host port [] h self npos,
  host_start-broker_url scheme host port [] h npos,
  host_colon-broker_url scheme host port [] h npos,
  authority_no_slash scheme host port [] h self,
  path_of-no_slash scheme host port [] h self,
  query_of-broker_url scheme host port [] h self npos,
  fragment_of-broker_url scheme host port [] h self npos,
)
