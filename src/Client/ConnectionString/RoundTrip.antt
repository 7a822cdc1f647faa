-- ===== src/Client/ConnectionString/RoundTrip.antt =====
-- `parseDeprecated` of src/mongo/client/dbclient.cpp reads the text that `_finishInit` writes of a replica set.
use mongo_cxx_driver.Base.{
  ℕ, suc, ◌+◌, ◌<◌, ◌≡◌, ◌≢◌, refl, sym, subst, ap, ◌∙◌, true, List, some, [], ◌∷◌, ◌++◌, ◌==◌,
  length, map, arith, inl, inr, Bool-cases, drop,
}
use mongo_cxx_driver.Number.Decimal.{decimal, decimal-IsDecimalOf}
use mongo_cxx_driver.Net.HostAndPort.{HostAndPort, find, npos, port}
use mongo_cxx_driver.Net.HostAndPort.Print.{to_string, int_text}
use mongo_cxx_driver.Net.HostAndPort.Print.Texts.{
  Lacks, find_from-none, find_from-here, Lacks-append, AllDecimal-Lacks, take-append, drop-append,
}
use mongo_cxx_driver.Net.HostAndPort.Print.RoundTrip.{IsPrintable, initialize-to_string}
use mongo_cxx_driver.Net.HostAndPort.Order.{text_eq_iff}
use mongo_cxx_driver.Util.StringUtils.{pieces_of, join_string_delim}
use mongo_cxx_driver.Client.ConnectionString.{
  ConnectionString, set, made, read_servers, fill_servers, front_of, set_front, finish_init,
  of_type, parse_deprecated, same_logical_endpoint,
}

abbrev AllLack : ℕ → List (List ℕ) → Type 0
AllLack c [] = Unit
AllLack c (s ∷ more) = Lacks c s × AllLack c more

pieces_of-Lacks : (c : ℕ) (s : List ℕ) → Lacks c s → pieces_of c s ≡ s ∷ []
unfolding pieces_of
pieces_of-Lacks c [] h = refl
pieces_of-Lacks c (x ∷ s) h = ground (arith, h.0, pieces_of-Lacks c s h.1)

pieces_of-append :
    (c : ℕ) (s rest : List ℕ) → Lacks c s → pieces_of c (s ++ c ∷ rest) ≡ s ∷ pieces_of c rest
unfolding pieces_of
pieces_of-append c [] rest h = ground arith
pieces_of-append c (x ∷ s) rest h = ground (arith, h.0, pieces_of-append c s rest h.1)

-- The texts between the commas are the texts that were joined.
pieces_of-join :
    (c : ℕ) (s : List ℕ) (more : List (List ℕ))
    → AllLack c (s ∷ more)
    → pieces_of c (join_string_delim (s ∷ more) c) ≡ s ∷ more
unfolding join_string_delim
pieces_of-join c s [] h = pieces_of-Lacks c s h.0
pieces_of-join c s (t ∷ more) h =
    pieces_of-append c s (join_string_delim (t ∷ more) c) h.0
    ∙ ap (λ l. s ∷ l) (pieces_of-join c t more h.1)

join-Lacks :
    (c d : ℕ) (texts : List (List ℕ))
    → d ≢ c
    → AllLack c texts
    → Lacks c (join_string_delim texts d)
unfolding join_string_delim
join-Lacks c d [] other h = tt
join-Lacks c d (s ∷ []) other h = h.0
join-Lacks c d (s ∷ t ∷ more) other h =
    Lacks-append c s (d ∷ join_string_delim (t ∷ more) d) h.0
      (other, join-Lacks c d (t ∷ more) other h.1)

shown-Lacks :
    (c : ℕ) (h : HostAndPort) (w : IsPrintable h)
    → c < b'0'
    → Lacks c h.host
    → Lacks c (to_string h)
unfolding to_string int_text
shown-Lacks c h w low none =
    let digits =
      AllDecimal-Lacks c (decimal w.number) (inl low)
        (decimal-IsDecimalOf w.number).decimal_digits in
    let behind : Lacks c (b':' ∷ decimal w.number) = ((λ e. absurd (omega (arith, low))), digits) in
    let close : Lacks c (b']' ∷ []) = ((λ e. absurd (omega (arith, low))), tt) in
    let bracket : Lacks c (b'[' ∷ (h.host ++ b']' ∷ [])) =
      ((λ e. absurd (omega (arith, low))), Lacks-append c h.host (b']' ∷ []) none close) in
    rw w.has_port (elim (Bool-cases (find h.host b':' == npos)) [
      | inl e ↦ rw e (Lacks-append c h.host (b':' ∷ decimal w.number) none behind)
      | inr e ↦
          rw e
            (Lacks-append c (b'[' ∷ (h.host ++ b']' ∷ [])) (b':' ∷ decimal w.number) bracket behind)
    ])

-- What an address needs to stand in a list: to be read back, and no comma, slash or dollar.
pub record IsListed (h : HostAndPort) : Type 0 where
  pub printable : IsPrintable h
  pub no_comma : Lacks b',' h.host
  pub no_slash : Lacks b'/' h.host
  pub no_dollar : Lacks b'$' h.host

abbrev pub AllListed : List HostAndPort → Type 0
AllListed [] = Unit
AllListed (h ∷ hs) = IsListed h × AllListed hs

texts-Lack :
    (c : ℕ) (low : c < b'0') (pick : (h : HostAndPort) → IsListed h → Lacks c h.host)
    (hs : List HostAndPort)
    → AllListed hs
    → AllLack c (map to_string hs)
texts-Lack c low pick [] w = tt
texts-Lack c low pick (h ∷ hs) w =
    (shown-Lacks c h w.0.printable low (pick h w.0), texts-Lack c low pick hs w.1)

-- The address as it is read back, with its port.
abbrev pub with_port : HostAndPort → HostAndPort
with_port h = record { host = h.host; port_field = port h }

read_servers-map :
    (hs : List HostAndPort)
    → AllListed hs
    → read_servers (map to_string hs) ≡ made (map with_port hs)
unfolding read_servers
read_servers-map [] w = refl
read_servers-map (h ∷ hs) w =
    rw (initialize-to_string h w.0.printable, read_servers-map hs w.1) refl

to_string-with_port : (h : HostAndPort) → IsPrintable h → to_string (with_port h) ≡ to_string h
unfolding to_string port
to_string-with_port h w =
    let same : port (with_port h) ≡ port h =
      subst (λ p. port record { host = h.host; port_field = p } ≡ p) (sym w.has_port) refl in
    rw same refl

texts_same :
    (hs : List HostAndPort) → AllListed hs → map to_string (map with_port hs) ≡ map to_string hs
texts_same [] w = refl
texts_same (h ∷ hs) w = rw (to_string-with_port h w.0.printable, texts_same hs w.1) refl

-- The value that the constructors make of a replica set's name and its servers.
abbrev pub set_of : List ℕ → List HostAndPort → ConnectionString
set_of name hs = finish_init record { kind = set; servers = hs; set_name = name; text = [] }

length_positive : (s : List ℕ) → s ≢ [] → 0 < length s
length_positive [] h = absurd (h refl)
length_positive (c ∷ s) h = omega arith

module _ (name : List ℕ) (h : HostAndPort) (hs : List HostAndPort) (named : name ≢ [])
    (no_slash : Lacks b'/' name) (short : length name < npos) (listed : AllListed (h ∷ hs)) where
  addresses : List ℕ
  addresses = join_string_delim (map to_string (h ∷ hs)) b','

  addresses-slash : find addresses b'/' ≡ npos
  unfolding find addresses
  addresses-slash = find_from-none b'/' addresses 0 (
      join-Lacks b'/' b',' (map to_string (h ∷ hs)) (omega arith)
        (texts-Lack b'/' (omega arith) (λ k w. w.no_slash) (h ∷ hs) listed))

  addresses-dollar : find addresses b'$' ≡ npos
  unfolding find addresses
  addresses-dollar = find_from-none b'$' addresses 0 (
      join-Lacks b'$' b',' (map to_string (h ∷ hs)) (λ e. absurd (omega arith))
        (texts-Lack b'$' (omega arith) (λ k w. w.no_dollar) (h ∷ hs) listed))

  read_addresses : read_servers (pieces_of b',' addresses) ≡ made (map with_port (h ∷ hs))
  unfolding addresses
  read_addresses =
      ap read_servers (
        pieces_of-join b',' (to_string h) (map to_string hs)
          (texts-Lack b',' (omega arith) (λ k w. w.no_comma) (h ∷ hs) listed))
      ∙ read_servers-map (h ∷ hs) listed

  name_length : 0 < length name
  name_length = length_positive name named

  of_type-set : of_type set addresses name ≡ made (set_of name (map with_port (h ∷ hs)))
  unfolding of_type fill_servers front_of set_front
  of_type-set =
      rw (addresses-dollar, addresses-slash) (rw read_addresses (ground (arith, name_length)))

  set_text : (set_of name (h ∷ hs)).text ≡ name ++ b'/' ∷ addresses
  unfolding finish_init addresses
  set_text = refl

  slash_at : find (name ++ b'/' ∷ addresses) b'/' ≡ length name
  unfolding find
  slash_at = find_from-here b'/' name addresses 0 no_slash ∙ omega arith

  parse_written :
      parse_deprecated (name ++ b'/' ∷ addresses) ≡ made (set_of name (map with_port (h ∷ hs)))
  unfolding parse_deprecated
  parse_written =
      let behind : drop (length name + 1) (name ++ b'/' ∷ addresses) ≡ addresses =
        subst (λ i. drop i (name ++ b'/' ∷ addresses) ≡ addresses) {x = suc (length name)}
          (omega arith) (drop-append name b'/' addresses) in
      rw slash_at (
        rw (take-append name (b'/' ∷ addresses), behind) (ground (arith, of_type-set, name_length)))

  same_set :
      same_logical_endpoint (set_of name (map with_port (h ∷ hs))) (set_of name (h ∷ hs))
      ≡ some true
  unfolding same_logical_endpoint finish_init
  same_set = ap some ((text_eq_iff name name).1 refl)

  same_text : (set_of name (map with_port (h ∷ hs))).text ≡ (set_of name (h ∷ hs)).text
  unfolding finish_init
  same_text = ap (λ t. name ++ b'/' ∷ join_string_delim t b',') (texts_same (h ∷ hs) listed)

  -- `parseDeprecated` reads the text that `_finishInit` writes of a replica set: it gives the set of the same
  -- name and the same servers, each with its port written out, which has the same text and is
  -- the same logical endpoint. The name is not empty, has no slash and is shorter than the largest
  -- position; there is a server, and each can be read back from its own text and has no comma,
  -- slash or dollar in its host.
  pub parse_deprecated-text :
      (parse_deprecated (set_of name (h ∷ hs)).text ≡ made (set_of name (map with_port (h ∷ hs))))
      × ((set_of name (map with_port (h ∷ hs))).text ≡ (set_of name (h ∷ hs)).text)
      × (same_logical_endpoint (set_of name (map with_port (h ∷ hs))) (set_of name (h ∷ hs))
          ≡ some true)
  parse_deprecated-text = (ap parse_deprecated set_text ∙ parse_written, same_text, same_set)
