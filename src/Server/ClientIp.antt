-- ===== src/Server/ClientIp.antt =====
-- internal/server/ratelimit.go: `clientIP` and `isTrustedProxy`. What `strings.Split` at commas,
-- `strings.TrimSpace` and `net.ParseIP` followed by `String` answer are parameters.
use fleetdeck.Prelude.{
  ◌≡◌, refl, ap, ◌∙◌, Bool, true, false, not, ◌&&◌, ◌||◌, Option, none, some, List, [], ◌∷◌, ◌++◌,
  String, arith, ◌==◌, if◌then◌else◌, rev_onto, rev_onto-append, is_nil,
}

abbrev pub trusted_in : (String → String) → String → List String → Bool
trusted_in trim peer [] = false
trusted_in trim peer (entry ∷ entries) = trim entry == peer || trusted_in trim peer entries

module _ (split : String → List String) (trim : String → String) where
  -- The proxies' list is the value of FLEETDECK_TRUST_PROXY_IPS.
  unfoldable pub is_trusted_proxy : String → String → Bool
  is_trusted_proxy raw peer = if raw == "" then false else trusted_in trim peer (split raw)

  module _ (parse_ip : String → Option String) where
    -- The loop, over the entries from the last to the first.
    abbrev pub visit : String → String → Option String → List String → String → String
    visit raw remote none rest later = remote
    visit raw remote (some ip) rest later =
        if not (is_trusted_proxy raw ip) || is_nil rest then ip else later

    unfoldable pub walk : String → String → List String → String
    walk raw remote [] = remote
    walk raw remote (entry ∷ rest) =
        visit raw remote (parse_ip (trim entry)) rest (walk raw remote rest)

    unfoldable pub client_ip : String → String → String → String
    client_ip raw remote forwarded_for =
        if is_trusted_proxy raw remote
        then walk raw remote (rev_onto (split forwarded_for) [])
        else remote

    -- Each of the entries reads as the address of a trusted proxy.
    abbrev pub AllTrusted : String → List String → Type 0
    AllTrusted raw [] = Unit
    AllTrusted raw (p ∷ ps) =
        ((ip : String) × (parse_ip (trim p) ≡ some ip) × (is_trusted_proxy raw ip ≡ true))
        × AllTrusted raw ps

    pass :
        (raw remote p ip : String) (rest : List String)
        → parse_ip (trim p) ≡ some ip
        → is_trusted_proxy raw ip ≡ true
        → is_nil rest ≡ false
        → walk raw remote (p ∷ rest) ≡ walk raw remote rest
    unfolding walk
    pass raw remote p ip rest reads trusted more = rw reads (rw trusted (rw more refl))

    walk-proxies :
        (raw remote entry : String) (proxies rest : List String)
        → AllTrusted raw proxies
        → walk raw remote (rev_onto proxies (entry ∷ rest)) ≡ walk raw remote (entry ∷ rest)
    walk-proxies raw remote entry [] rest h = refl
    walk-proxies raw remote entry (p ∷ ps) rest ((ip, reads, trusted), h) =
        walk-proxies raw remote p ps (entry ∷ rest) h
        ∙ pass raw remote p ip (entry ∷ rest) reads trusted refl

    stops :
        (raw remote p ip : String) (rest : List String)
        → parse_ip (trim p) ≡ some ip
        → (is_trusted_proxy raw ip && not (is_nil rest)) ≡ false
        → walk raw remote (p ∷ rest) ≡ ip
    unfolding walk
    stops raw remote p ip rest reads h = rw reads (ground (arith, h))

    -- Behind a trusted proxy, where the header's entries after one are all trusted proxies, and that
    -- one reads as an address that is not trusted or is the first of them, the client is that
    -- address, whatever entries the client itself put before it.
    pub client_ip-AllTrusted :
        (raw remote forwarded_for entry ip : String) (before proxies : List String)
        → is_trusted_proxy raw remote ≡ true
        → split forwarded_for ≡ before ++ (entry ∷ proxies)
        → AllTrusted raw proxies
        → parse_ip (trim entry) ≡ some ip
        → (is_trusted_proxy raw ip && not (is_nil (rev_onto before []))) ≡ false
        → client_ip raw remote forwarded_for ≡ ip
    unfolding client_ip
    client_ip-AllTrusted raw remote forwarded_for entry ip before proxies peer parts h reads last =
        rw peer (
          ap (λ es. walk raw remote (rev_onto es [])) parts
          ∙ ap (walk raw remote) (rev_onto-append before (entry ∷ proxies) [])
          ∙ walk-proxies raw remote entry proxies (rev_onto before []) h
          ∙ stops raw remote entry ip (rev_onto before []) reads last)
