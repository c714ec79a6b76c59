-- ===== src/RateLimit/Address.antt =====
-- requestRemoteKey, parseRemoteAddress and isTrustedProxy of backend/internal/httpapi/auth_abuse.go: the
-- client's address behind proxies. The package netip is outside: an address is a text in its canonical
-- form, and the functions that parse addresses and prefixes are given.
use online_prorab.Common.{
  String, ◌≡◌, refl, ◌↔◌, ap, ◌∙◌, Bool, true, false, ◌||◌, Option, none, some, List, [], ◌∷◌, ◌++◌,
  arith, str_eq, if◌then◌else◌, Option-cases, Bool-cases, inl, inr, sym, ◌⊎◌,
}
use online_prorab.Text.{trim_space}

-- What the code takes from netip. `parse_addr` answers the address and whether it has a zone; `unmap` and
-- `without_zone` are the methods of an address; `prefix_contains` answers `none` where the text is no
-- prefix; `host_of` is net.SplitHostPort, `none` where it fails.
pub record Netip : Type 0 where
  pub parse_addr : String → Option String
  pub has_zone : String → Bool
  pub without_zone : String → String
  pub unmap : String → String
  pub prefix_contains : (prefix address : String) → Option Bool
  pub host_of : String → Option String

module _ (n : Netip) where
  abbrev is_address : Option String → String → Bool
  is_address none address = false
  is_address (some proxy) address = str_eq (n.unmap proxy) address

  abbrev trusts : String → String → Bool
  trusts value address = elim (n.prefix_contains value address) [
    | some contained ↦ contained
    | none ↦ is_address (n.parse_addr value) address
  ]

  -- `cidrs` is TrustedProxyCIDRs.
  unfoldable pub is_trusted_proxy : (cidrs : List String) → String → Bool
  is_trusted_proxy [] address = false
  is_trusted_proxy (value ∷ values) address =
      trusts (trim_space value) address || is_trusted_proxy values address

  abbrev or_whole : String → Option String → String
  or_whole value none = value
  or_whole value (some host) = host

  abbrev plain : Option String → Option String
  plain none = none
  plain (some address) = some (n.unmap (n.without_zone address))

  unfoldable pub parse_remote_address : String → Option String
  parse_remote_address remote_addr =
      plain (n.parse_addr (or_whole (trim_space remote_addr) (n.host_of (trim_space remote_addr))))

  abbrev forwarded_address : Option String → Option String
  forwarded_address none = none
  forwarded_address (some address) = if n.has_zone address then none else some (n.unmap address)

  -- The addresses of the X-Forwarded-For headers, whose comma-separated parts are given in order.
  unfoldable pub forwarded : List String → Option (List String)
  forwarded [] = some []
  forwarded (value ∷ values) = elim (forwarded_address (n.parse_addr (trim_space value))) [
    | none ↦ none
    | some address ↦ elim (forwarded values) [ none ↦ none | some rest ↦ some (address ∷ rest) ]
  ]

  -- The last hop that is no trusted proxy.
  unfoldable pub last_untrusted : (cidrs : List String) → List String → Option String
  last_untrusted cidrs [] = none
  last_untrusted cidrs (address ∷ addresses) = elim (last_untrusted cidrs addresses) [
    | some found ↦ some found
    | none ↦ if is_trusted_proxy cidrs address then none else some address
  ]

  abbrev through : List String → String → Option (List String) → Option String
  through cidrs remote none = none
  through cidrs remote (some []) = none
  through cidrs remote (some (a ∷ rest_hops)) =
      last_untrusted cidrs ((a ∷ rest_hops) ++ remote ∷ [])

  abbrev key_of : List String → List String → Option String → Option String
  key_of cidrs values none = none
  key_of cidrs values (some remote) =
      if is_trusted_proxy cidrs remote then through cidrs remote (forwarded values) else some remote

  unfoldable pub request_remote_key :
      (cidrs : List String) → (remote_addr : String) → (values : List String) → Option String
  request_remote_key cidrs remote_addr values =
      key_of cidrs values (parse_remote_address remote_addr)

  -- Hops that are all trusted.
  abbrev pub AllTrusted : List String → List String → Type 0
  AllTrusted cidrs [] = Unit {0}
  AllTrusted cidrs (a ∷ rest_hops) = (is_trusted_proxy cidrs a ≡ true) × AllTrusted cidrs rest_hops

  none_untrusted :
      (cidrs hops : List String) → last_untrusted cidrs hops ≡ none → AllTrusted cidrs hops
  unfolding last_untrusted
  none_untrusted cidrs [] h = tt
  none_untrusted cidrs (a ∷ rest_hops) h = elim (Option-cases (last_untrusted cidrs rest_hops)) [
    | inr (b, e) ↦ absurd (ground arith)
    | inl e ↦ (ground arith, none_untrusted cidrs rest_hops e)
  ]

  last_untrusted_lem :
      (cidrs hops : List String) (key : String)
      → last_untrusted cidrs hops ≡ some key
      → (is_trusted_proxy cidrs key ≡ false)
        × (before : List String) × (after : List String) × (hops ≡ before ++ key ∷ after)
        × AllTrusted cidrs after
  unfolding last_untrusted
  last_untrusted_lem cidrs [] key h = absurd (ground arith)
  last_untrusted_lem cidrs (a ∷ rest_hops) key h =
      elim (Option-cases (last_untrusted cidrs rest_hops)) [
        | inr (b, e) ↦
            let same : b ≡ key = ground arith in
            let (out, before, after, split, trusted) =
              last_untrusted_lem cidrs rest_hops key (e ∙ ap some same) in
            (out, a ∷ before, after, ap (λ l. a ∷ l) split, trusted)
        | inl e ↦
            let same : a ≡ key = ground arith in
            (
              ground arith,
              [],
              rest_hops,
              ap (λ x. x ∷ rest_hops) same,
              none_untrusted cidrs rest_hops e,
            )
      ]

  -- The key is no trusted proxy, and either the peer or a hop that the headers name, after which all hops,
  -- the peer included, are trusted proxies.
  abbrev pub IsKey : List String → String → List String → String → Type 0
  IsKey cidrs remote_addr values key =
      (remote : String) × (parse_remote_address remote_addr ≡ some remote)
      × (is_trusted_proxy cidrs key ≡ false)
      × ((key ≡ remote)
          ⊎ ((hops : List String) × (before : List String) × (after : List String) × (forwarded
                  values
                ≡ some hops)
              × (hops ++ remote ∷ [] ≡ before ++ key ∷ after)
              × AllTrusted cidrs after))

  request_remote_key-IsKey :
      (cidrs : List String) (remote_addr : String) (values : List String) (key : String)
      → request_remote_key cidrs remote_addr values ≡ some key
      → IsKey cidrs remote_addr values key
  unfolding request_remote_key
  request_remote_key-IsKey cidrs remote_addr values key h =
      elim (Option-cases (parse_remote_address remote_addr)) [
        | inl e ↦ absurd (ground arith)
        | inr (remote, e) ↦ elim (Bool-cases (is_trusted_proxy cidrs remote)) [
          | inr direct ↦
              let same : remote ≡ key = ground arith in
              (remote, e, ap (is_trusted_proxy cidrs) (sym same) ∙ direct, inl (sym same))
          | inl proxied ↦ elim (Option-cases (forwarded values)) [
            | inl f ↦ absurd (ground arith)
            | inr (hops, f) ↦ by_hops remote hops e proxied f
          ]
        ]
      ]
    where
      by_hops :
          (remote : String) (hops : List String)
          → parse_remote_address remote_addr ≡ some remote
          → is_trusted_proxy cidrs remote ≡ true
          → forwarded values ≡ some hops
          → IsKey cidrs remote_addr values key
      by_hops remote [] e proxied f = absurd (ground arith)
      by_hops remote (a ∷ rest_hops) e proxied f =
          let (out, before, after, split, trusted) =
            last_untrusted_lem cidrs ((a ∷ rest_hops) ++ remote ∷ []) key (ground arith) in
          (remote, e, out, inr (a ∷ rest_hops, before, after, f, split, trusted))

  all_trusted :
      (cidrs hops : List String) → AllTrusted cidrs hops → last_untrusted cidrs hops ≡ none
  unfolding last_untrusted
  all_trusted cidrs [] h = refl
  all_trusted cidrs (a ∷ rest_hops) (h, hs) = ground (arith, all_trusted cidrs rest_hops hs)

  -- What stands in front of the last hop that is no trusted proxy does not matter.
  last_untrusted-append :
      (cidrs before : List String) (key : String) (after : List String)
      → is_trusted_proxy cidrs key ≡ false
      → AllTrusted cidrs after
      → last_untrusted cidrs (before ++ key ∷ after) ≡ some key
  unfolding last_untrusted
  last_untrusted-append cidrs [] key after out h = ground (arith, all_trusted cidrs after h)
  last_untrusted-append cidrs (a ∷ before) key after out h =
      ground (arith, last_untrusted-append cidrs before key after out h)

  chosen_key :
      (cidrs values : List String) (remote_addr remote key : String)
      (hops before after : List String)
      → parse_remote_address remote_addr ≡ some remote
      → is_trusted_proxy cidrs key ≡ false
      → forwarded values ≡ some hops
      → hops ++ remote ∷ [] ≡ before ++ key ∷ after
      → AllTrusted cidrs after
      → request_remote_key cidrs remote_addr values ≡ some key
  unfolding request_remote_key
  chosen_key cidrs values remote_addr remote key hops before after e out f split h =
      let last : last_untrusted cidrs (hops ++ remote ∷ []) ≡ some key =
        ap (last_untrusted cidrs) split ∙ last_untrusted-append cidrs before key after out h in
      elim (Bool-cases (is_trusted_proxy cidrs remote)) [
        | inr direct ↦
            let peer : last_untrusted cidrs (hops ++ remote ∷ []) ≡ some remote =
              last_untrusted-append cidrs hops remote [] direct tt in
            ground (arith, sym peer ∙ last)
        | inl proxied ↦ by_hops hops f last proxied
      ]
    where
      by_hops :
          (hs : List String)
          → forwarded values ≡ some hs
          → last_untrusted cidrs (hs ++ remote ∷ []) ≡ some key
          → is_trusted_proxy cidrs remote ≡ true
          → key_of cidrs values (parse_remote_address remote_addr) ≡ some key
      by_hops [] g last proxied =
          let nobody : last_untrusted cidrs (remote ∷ []) ≡ none =
            all_trusted cidrs (remote ∷ []) (proxied, tt) in
          absurd (ground (arith, sym nobody ∙ last))
      by_hops (a ∷ hs) g last proxied = ground (arith, e, g, last)

  request_remote_key_of_IsKey :
      (cidrs : List String) (remote_addr : String) (values : List String) (key : String)
      → IsKey cidrs remote_addr values key
      → request_remote_key cidrs remote_addr values ≡ some key
  unfolding request_remote_key
  request_remote_key_of_IsKey cidrs remote_addr values key (remote, e, out, inl same) =
      let direct : is_trusted_proxy cidrs remote ≡ false =
        ap (is_trusted_proxy cidrs) (sym same) ∙ out in
      ground arith
  request_remote_key_of_IsKey cidrs remote_addr values key
        (remote, e, out, inr (hops, before, after, f, split, h)) =
      chosen_key cidrs values remote_addr remote key hops before after e out f split h

  -- A request has a key exactly where it is the address of no trusted proxy, and either the peer itself or
  -- a hop that the headers name, where they can be read, all hops after which, the peer included, are
  -- trusted proxies.
  pub remote_key_lem :
      (cidrs : List String) (remote_addr : String) (values : List String) (key : String)
      → (request_remote_key cidrs remote_addr values ≡ some key)
        ↔ IsKey cidrs remote_addr values key
  remote_key_lem cidrs remote_addr values key = (
    request_remote_key-IsKey cidrs remote_addr values key,
    request_remote_key_of_IsKey cidrs remote_addr values key,
  )
