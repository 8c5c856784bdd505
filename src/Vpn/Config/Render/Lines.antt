-- ===== src/Vpn/Config/Render/Lines.antt =====
-- internal/vpn/config.go, ParseConfig, over a run of lines with one key, and over the lines of a peer.
use mathlib.Core.List.{append_assoc}
use mist_ui.Vpn.Text.{trim, trim_space, trim_left, trim_right, to_lower, cut_where}
use mist_ui.Vpn.Config.{
  Net, Peer, Config, no_peer, Parser, Section, in_interface, in_peer, split_list, update_last,
  line_text, is_header, open_section, set_peer, set_in, set_value, parse_line, parse_lines,
}
use mist_ui.Vpn.Config.Render.{
  line, listed, optional, is_letter, IsText, IsValue-IsText, after_comma, endpoint_lines,
  peer_lines, Values, IsOptional, IsEndpoint, IsPrintablePeer, parse_line_pair, IsLetters,
}
use mist_ui.Vpn.Config.Render.Lists.{list-IsText, split_list-list}
use mist_ui.Base.{
  ℕ, String, ◌≡◌, refl, ap, ◌∙◌, Bool, true, false, ◌&&◌, List, [], ◌∷◌, ◌++◌, arith, Bytes, str,
  bytes_eq, ok,
}

update_last-append :
    (f : Peer → Peer) (ps : List Peer) (p : Peer)
    → update_last f (ps ++ (p ∷ [])) ≡ ps ++ (f p ∷ [])
unfolding update_last
update_last-append f [] p = refl
update_last-append f (q ∷ []) p = refl
update_last-append f (q ∷ r ∷ ps) p = ap (λ t. q ∷ t) (update_last-append f (r ∷ ps) p)

abbrev pub at_interface : Config → Parser
at_interface cfg = record { section = in_interface; cfg = cfg }

-- In the section of the peer `p`, after the peers `ps`.
abbrev pub at_peer : Config → List Peer → Peer → Parser
at_peer cfg ps p = record { section = in_peer; cfg = record cfg { peers = ps ++ (p ∷ []) } }

abbrev pub are_letters : Bytes → Bool
are_letters [] = true
are_letters (c ∷ s) = is_letter c && are_letters s

abbrev pub is_word : Bytes → Bool
is_word [] = false
is_word (c ∷ s) = are_letters (c ∷ s)

pub letters : (s : Bytes) → are_letters s ≡ true → IsLetters s
letters [] h = tt
letters (c ∷ s) h = (ground arith, letters s (ground arith))

abbrev pub state : Section → Config → Parser
state sec cfg = record { section = sec; cfg = cfg }

module _ (N : Net) where
  -- A line whose value is stored: the parser goes on with the state after it.
  pub parse_lines_pair :
      (sec : Section) (cfg next : Config) (key v : Bytes) (rest : List Bytes)
      → is_word key ≡ true
      → IsText v
      → set_in N sec cfg (to_lower key) v ≡ ok next
      → parse_lines N (state sec cfg) (line key v ∷ rest) ≡ parse_lines N (state sec next) rest
  unfolding parse_lines set_value
  parse_lines_pair sec cfg next [] v rest h k e = absurd (ground arith)
  parse_lines_pair sec cfg next (c ∷ s) v rest h k e =
      rw (parse_line_pair N (state sec cfg) c s v (letters (c ∷ s) h) k) (rw e refl)

  -- At most one line that sets a list.
  pub parse_listed :
      (sec : Section) (mk : List Bytes → Config) (key : String) (vs rest : List Bytes)
      → is_word (str key) ≡ true
      → ((text : Bytes)
          → set_in N sec (mk []) (to_lower (str key)) text ≡ ok (mk (split_list text)))
      → Values vs
      → parse_lines N (state sec (mk [])) (listed key vs ++ rest)
        ≡ parse_lines N (state sec (mk vs)) rest
  parse_listed sec mk key [] rest w step h = refl
  parse_listed sec mk key (v ∷ vs) rest w step h =
      let text = v ++ after_comma vs in
      parse_lines_pair sec (mk []) (mk (v ∷ vs)) (str key) text rest w (list-IsText v vs h.0 h.1)
        (step text ∙ ap (λ l. ok (mk l)) (split_list-list v vs h.0 h.1))

  -- At most one line that sets a field.
  pub parse_optional :
      (sec : Section) (mk : Bytes → Config) (key : String) (v : Bytes) (rest : List Bytes)
      → is_word (str key) ≡ true
      → ((c : ℕ) (u : Bytes) → set_in N sec (mk []) (to_lower (str key)) (c ∷ u) ≡ ok (mk (c ∷ u)))
      → IsOptional N v
      → parse_lines N (state sec (mk [])) (optional key v ++ rest)
        ≡ parse_lines N (state sec (mk v)) rest
  parse_optional sec mk key [] rest w step h = refl
  parse_optional sec mk key (c ∷ v) rest w step h =
      parse_lines_pair sec (mk []) (mk (c ∷ v)) (str key) (c ∷ v) rest w (IsValue-IsText (c ∷ v) h)
        (step c v)

  parse_endpoint :
      (cfg : Config) (ps : List Peer) (p : Peer) (host port : Bytes) (rest : List Bytes)
      → p.endpoint_host ≡ []
      → p.endpoint_port ≡ []
      → IsEndpoint N host port
      → parse_lines N (at_peer cfg ps p) (endpoint_lines N host port ++ rest)
        ≡ parse_lines N
            (at_peer cfg ps (record p { endpoint_host = host; endpoint_port = port }))
            rest
  unfolding set_in set_peer to_lower str bytes_eq
  parse_endpoint cfg ps p [] port rest h k e =
      ap (λ q. parse_lines N (at_peer cfg ps q) rest) (cc (h, k, e))
  parse_endpoint cfg ps p (c ∷ host) port rest h k (v, e) =
      parse_lines_pair in_peer _ _ (str "Endpoint") (N.join_host_port (c ∷ host) port) rest refl
        (IsValue-IsText _ v) (rw e (rw (update_last-append _ ps p) refl))

  abbrev peer_at : Config → List Peer → Peer → Config
  peer_at cfg ps p = record cfg { peers = ps ++ (p ∷ []) }

  parse_peer_header :
      (sec : Section) (cfg : Config) (ps : List Peer) (rest : List Bytes)
      → parse_lines N (state sec (record cfg { peers = ps })) (str "[Peer]" ∷ rest)
        ≡ parse_lines N (at_peer cfg ps no_peer) rest
  unfolding parse_lines parse_line line_text trim_space trim trim_left trim_right cut_where
      is_header open_section to_lower str bytes_eq
  parse_peer_header sec cfg ps rest = refl

  abbrev p1 : Peer → Peer
  p1 p = record no_peer { public_key = p.public_key }

  abbrev p2 : Peer → Bytes → Peer
  p2 p v = record no_peer { public_key = p.public_key; preshared_key = v }

  abbrev p3 : Peer → List Bytes → Peer
  p3 p vs = record no_peer {
    public_key = p.public_key;
    preshared_key = p.preshared_key;
    allowed_ips = vs;
  }

  abbrev p5 : Peer → Bytes → Peer
  p5 p v = record p { persistent_keepalive = v }

  parse_peer_nested :
      (sec : Section) (cfg : Config) (ps : List Peer) (p : Peer) (rest : List Bytes)
      → IsPrintablePeer N p
      → parse_lines N (state sec (record cfg { peers = ps })) (
          str "[Peer]"
          ∷ line (str "PublicKey") p.public_key
          ∷ (optional "PresharedKey" p.preshared_key
              ++ (listed "AllowedIPs" p.allowed_ips
                  ++ (endpoint_lines N p.endpoint_host p.endpoint_port
                      ++ (optional "PersistentKeepalive" p.persistent_keepalive ++ rest)))))
        ≡ parse_lines N (at_peer cfg ps p) rest
  unfolding set_in set_peer to_lower str bytes_eq
  parse_peer_nested sec cfg ps p rest h =
      parse_peer_header sec cfg ps _
      ∙ parse_lines_pair in_peer (peer_at cfg ps no_peer) (peer_at cfg ps (p1 p)) (str "PublicKey")
          p.public_key _ refl (IsValue-IsText p.public_key h.key_value)
          (rw (update_last-append _ ps no_peer) refl)
      ∙ parse_optional in_peer (λ v. peer_at cfg ps (p2 p v)) "PresharedKey" p.preshared_key _ refl
          (λ c u. rw (update_last-append _ ps (p2 p [])) refl) h.preshared_value
      ∙ parse_listed in_peer (λ vs. peer_at cfg ps (p3 p vs)) "AllowedIPs" p.allowed_ips _ refl
          (λ text. rw (update_last-append _ ps (p3 p [])) refl) h.ips_values
      ∙ parse_endpoint cfg ps (p3 p p.allowed_ips) p.endpoint_host p.endpoint_port _ refl refl
          h.endpoint_value
      ∙ parse_optional in_peer (λ v. peer_at cfg ps (p5 p v)) "PersistentKeepalive"
          p.persistent_keepalive rest refl (λ c u. rw (update_last-append _ ps (p5 p [])) refl)
          h.keepalive_value

  pub parse_peer :
      (sec : Section) (cfg : Config) (ps : List Peer) (p : Peer) (rest : List Bytes)
      → IsPrintablePeer N p
      → parse_lines N (state sec (record cfg { peers = ps })) (peer_lines N p ++ rest)
        ≡ parse_lines N (at_peer cfg ps p) rest
  unfolding peer_lines
  parse_peer sec cfg ps p rest h =
      ap
        (λ ls.
          parse_lines N (state sec (record cfg { peers = ps }))
            (str "[Peer]" ∷ line (str "PublicKey") p.public_key ∷ ls))
        (simp (append_assoc))
      ∙ parse_peer_nested sec cfg ps p rest h
