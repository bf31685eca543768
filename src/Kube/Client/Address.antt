-- ===== src/Kube/Client/Address.antt =====
-- When the client has an address, and which.
use elastic_gpu_agent.Prelude.{
  ◌≡◌, ◌↔◌, ◌⊎◌, inl, inr, refl, ap, false, ◌++◌, [], arith, Text, codes, text_eq, text_eq_iff,
  Result, ok, err, Error, Bool-cases,
}
use elastic_gpu_agent.Kube.Client.{
  Url, unix_protocol, of_url, of_parse, is_error, address_of, parse_endpoint, with_fallback,
  parse_endpoint_with_fallback_protocol, get_address,
}

module _ (parse : Text → Result Url) where
  -- The text parses as a URL of a unix socket with this path.
  abbrev pub IsUnix : Text → Text → Type 0
  IsUnix endpoint addr =
      (u : Url) × (parse endpoint ≡ ok u) × (u.scheme ≡ codes "unix") × (u.path ≡ addr)

  -- The text does not parse as a URL, or parses without a scheme.
  pub data HasNoScheme (endpoint : Text) : Type 0 where
    no_url : (e : Error) → parse endpoint ≡ err e → HasNoScheme endpoint
    no_scheme : (u : Url) → parse endpoint ≡ ok u → u.scheme ≡ [] → HasNoScheme endpoint

  of_url_unix :
      (u : Url) (addr : Text)
      → address_of (of_url u) (of_url u).error ≡ ok addr
      → (u.scheme ≡ codes "unix") × (u.path ≡ addr)
  unfolding of_url address_of text_eq
  of_url_unix u addr e = ground (
    arith,
    text_eq_iff u.scheme (codes "tcp"),
    text_eq_iff u.scheme (codes "unix"),
    text_eq_iff u.scheme [],
  )

  retried :
      (endpoint addr : Text) (r : Result Url)
      → parse (codes "unix" ++ codes "://" ++ endpoint) ≡ r
      → address_of (of_parse r) (of_parse r).error ≡ ok addr
      → IsUnix (codes "unix" ++ codes "://" ++ endpoint) addr
  unfolding of_parse address_of
  retried endpoint addr (ok u) g e = let (a, b) = of_url_unix u addr e in (u, g, a, b)
  retried endpoint addr (err x) g e = absurd (cc)

  not_retried :
      (endpoint fallback : Text) (u : Url)
      → text_eq u.scheme [] ≡ false
      → with_fallback parse endpoint fallback (of_url u) (is_error (of_url u).error) ≡ of_url u
  unfolding of_url with_fallback is_error
  not_retried endpoint fallback u n = ground arith

  no_scheme_url : (u : Url) → u.scheme ≡ [] → of_url u ≡ of_url (record u { scheme = [] })
  no_scheme_url u e = ap (λ s. of_url (record u { scheme = s })) e

  address_sound :
      (endpoint addr : Text) (r : Result Url)
      → parse endpoint ≡ r
      → get_address parse endpoint ≡ ok addr
      → IsUnix endpoint addr
        ⊎ (HasNoScheme endpoint × IsUnix (codes "unix" ++ codes "://" ++ endpoint) addr)
  unfolding get_address parse_endpoint_with_fallback_protocol parse_endpoint text_eq
  address_sound endpoint addr (err x) g e =
      inr (no_url x g, retried endpoint addr _ refl (rw g at e))
  address_sound endpoint addr (ok u) g e = elim (Bool-cases (text_eq u.scheme [])) [
    | inl none_ ↦
        let scheme = (text_eq_iff u.scheme []).0 none_ in
        inr
          (no_scheme u g scheme, retried endpoint addr _ refl (rw (g, no_scheme_url u scheme) at e))
    | inr some_ ↦
        let (a, b) = of_url_unix u addr (rw (g, not_retried endpoint unix_protocol u some_) at e) in
        inl (u, g, a, b)
  ]

  address_complete :
      (endpoint addr : Text)
      → (IsUnix endpoint addr
          ⊎ (HasNoScheme endpoint × IsUnix (codes "unix" ++ codes "://" ++ endpoint) addr))
      → get_address parse endpoint ≡ ok addr
  unfolding get_address parse_endpoint_with_fallback_protocol parse_endpoint text_eq
  address_complete endpoint addr (inl (u, e, s, p)) = rw e (rw s (ap_ok p))
    where
      ap_ok : u.path ≡ addr → ◌≡◌ {A = Result Text} (ok u.path) (ok addr)
      ap_ok p = rw p
  address_complete endpoint addr (inr (no_url x g, (u, e, s, p))) = rw (g, e) (rw s (cc))
  address_complete endpoint addr (inr (no_scheme v g t, (u, e, s, p))) =
      rw g (rw (t, e) (rw s (cc)))

  -- The client has an address exactly for an endpoint that is the URL of a unix socket, and then it is
  -- the socket's path; or for one that is no URL, or has no scheme, and is such a URL with `unix://`
  -- before it.
  pub get_address_iff :
      (endpoint addr : Text)
      → (get_address parse endpoint ≡ ok addr) ↔ (
          IsUnix endpoint addr
          ⊎ (HasNoScheme endpoint × IsUnix (codes "unix" ++ codes "://" ++ endpoint) addr))
  get_address_iff endpoint addr =
      (λ e. address_sound endpoint addr (parse endpoint) refl e, address_complete endpoint addr)
