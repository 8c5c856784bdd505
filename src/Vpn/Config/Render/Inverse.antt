-- ===== src/Vpn/Config/Render/Inverse.antt =====
-- internal/vpn/config.go, ParseConfig, on whole files.
use mathlib.Core.List.{append_assoc, append-nil}
use mist_ui.Vpn.Text.{
  trim, trim_space, trim_left, trim_right, to_lower, cut_where, split, split-join, is_byte, Free,
  AllFree, Free-append,
}
use mist_ui.Vpn.Config.{
  Net, Peer, Config, no_config, Section, no_section, in_interface, in_peer, line_text, is_header,
  open_section, set_interface, set_in, parse_line, parse_lines, parse_config,
}
use mist_ui.Vpn.Config.Valid.{IsValid, validate_iff}
use mist_ui.Vpn.Config.Render.{
  line, listed, optional, IsText, IsValue-IsText, after_comma, is_ender, key-Free, endpoint_lines,
  peer_lines, all_peer_lines, config_lines, render, Values, IsOptional, IsEndpoint, IsPrintablePeer,
  ArePrintable, IsPrintable, Free-weaken,
}
use mist_ui.Vpn.Config.Render.Lines.{
  letters, are_letters, state, at_interface, parse_lines_pair, parse_listed, parse_optional,
  parse_peer,
}
use mist_ui.Vpn.Config.Render.Lists.{list-IsText}
use mist_ui.Base.{
  ℕ, String, ◌≡◌, refl, ap, ◌∙◌, Bool, true, List, [], ◌∷◌, ◌++◌, arith, Bytes, str, bytes_eq, ok,
}

module _ (N : Net) where
  -- After the peers `ps` come the lines of `qs`.
  parse_peers :
      (sec : Section) (cfg : Config) (ps qs : List Peer)
      → ArePrintable N qs
      → ((end : Section) × (parse_lines N
              (state sec (record cfg { peers = ps }))
              (all_peer_lines N qs)
            ≡ ok (state end (record cfg { peers = ps ++ qs }))))
  unfolding parse_lines all_peer_lines
  parse_peers sec cfg ps [] h = (sec, rw (append-nil ps) refl)
  parse_peers sec cfg ps (q ∷ qs) h =
      let (end, e) = parse_peers in_peer cfg (ps ++ (q ∷ [])) qs h.1 in
      (
        end,
        parse_peer N sec cfg ps q (all_peer_lines N qs) h.0
            ∙ e
            ∙ ap (λ l. ok (state end (record cfg { peers = l }))) (append_assoc ps (q ∷ []) qs),
      )

  abbrev c1 : Config → Config
  c1 cfg = record no_config { private_key = cfg.private_key }

  abbrev c2 : Config → List Bytes → Config
  c2 cfg vs = record (c1 cfg) { addresses = vs }

  abbrev c3 : Config → List Bytes → Config
  c3 cfg vs = record (c1 cfg) { addresses = cfg.addresses; dns = vs }

  abbrev c4 : Config → Bytes → Config
  c4 cfg v = record cfg { mtu = v; peers = [] }

  parse_header :
      (rest : List Bytes)
      → parse_lines N (record { section = no_section; cfg = no_config }) (str "[Interface]" ∷ rest)
        ≡ parse_lines N (at_interface no_config) rest
  unfolding parse_lines parse_line line_text trim_space trim trim_left trim_right cut_where
      is_header open_section to_lower str bytes_eq
  parse_header rest = refl

  parse_config_lines :
      (cfg : Config)
      → IsPrintable N cfg
      → ((end : Section) × (parse_lines N
              (record { section = no_section; cfg = no_config })
              (str "[Interface]" ∷ config_lines N cfg)
            ≡ ok (state end cfg)))
  unfolding config_lines set_in set_interface to_lower str bytes_eq
  parse_config_lines cfg h =
      let (end, e) = parse_peers in_interface cfg [] cfg.peers h.peer_values in
      (
        end,
        parse_header (config_lines N cfg)
            ∙ parse_lines_pair N in_interface no_config (c1 cfg) (str "PrivateKey") cfg.private_key
                _ refl (IsValue-IsText cfg.private_key h.private_value) refl
            ∙ parse_listed N in_interface (c2 cfg) "Address" cfg.addresses _ refl (λ text. refl)
                h.address_values
            ∙ parse_listed N in_interface (c3 cfg) "DNS" cfg.dns _ refl (λ text. refl) h.dns_values
            ∙ parse_optional N in_interface (c4 cfg) "MTU" cfg.mtu _ refl (λ c u. refl) h.mtu_value
            ∙ e,
      )

  newline-Free : (v : Bytes) → Free is_ender v → Free (is_byte 10) v
  newline-Free v f = Free-weaken is_ender (is_byte 10) v (λ c h. ground arith) f

  line-Free : (key v : Bytes) → are_letters key ≡ true → IsText v → Free (is_byte 10) (line key v)
  line-Free key v w h =
      Free-append (is_byte 10) (key ++ (b' ' ∷ [])) (b'=' ∷ b' ' ∷ v)
        (key-Free (is_byte 10) key (λ c a. ground arith) refl (letters key w))
        (refl, (refl, newline-Free v h.is_free))

  AllFree-append :
      (p : ℕ → Bool) (xs ys : List Bytes) → AllFree p xs → AllFree p ys → AllFree p (xs ++ ys)
  AllFree-append p [] ys h k = k
  AllFree-append p (x ∷ xs) ys h k = (h.0, AllFree-append p xs ys h.1 k)

  listed-Free :
      (key : String) (vs : List Bytes)
      → are_letters (str key) ≡ true
      → Values vs
      → AllFree (is_byte 10) (listed key vs)
  listed-Free key [] f h = tt
  listed-Free key (v ∷ vs) f h =
      (line-Free (str key) (v ++ after_comma vs) f (list-IsText v vs h.0 h.1), tt)

  optional-Free :
      (key : String) (v : Bytes)
      → are_letters (str key) ≡ true
      → IsOptional N v
      → AllFree (is_byte 10) (optional key v)
  optional-Free key [] f h = tt
  optional-Free key (c ∷ v) f h = (line-Free (str key) (c ∷ v) f (IsValue-IsText (c ∷ v) h), tt)

  endpoint_free :
      (host port : Bytes)
      → IsEndpoint N host port
      → AllFree (is_byte 10) (endpoint_lines N host port)
  unfolding str
  endpoint_free [] port h = tt
  endpoint_free (c ∷ host) port h = (line-Free (str "Endpoint") _ refl (IsValue-IsText _ h.0), tt)

  peer_lines_free : (p : Peer) → IsPrintablePeer N p → AllFree (is_byte 10) (peer_lines N p)
  unfolding peer_lines str
  peer_lines_free p h = (
    word_bracket,
    (
      line-Free (str "PublicKey") p.public_key refl (IsValue-IsText p.public_key h.key_value),
      AllFree-append _ (optional "PresharedKey" p.preshared_key) _
          (optional-Free "PresharedKey" p.preshared_key refl h.preshared_value)
          (AllFree-append _ (listed "AllowedIPs" p.allowed_ips) _
            (listed-Free "AllowedIPs" p.allowed_ips refl h.ips_values)
            (AllFree-append _ (endpoint_lines N p.endpoint_host p.endpoint_port) _
              (endpoint_free p.endpoint_host p.endpoint_port h.endpoint_value)
              (optional-Free "PersistentKeepalive" p.persistent_keepalive refl h.keepalive_value))),
    ),
  )
    where
      word_bracket : Free (is_byte 10) (str "[Peer]")
      word_bracket = (refl, (refl, (refl, (refl, (refl, (refl, tt))))))

  all_peer_lines_free :
      (ps : List Peer) → ArePrintable N ps → AllFree (is_byte 10) (all_peer_lines N ps)
  unfolding all_peer_lines
  all_peer_lines_free [] h = tt
  all_peer_lines_free (p ∷ ps) h =
      AllFree-append _ (peer_lines N p) _ (peer_lines_free p h.0) (all_peer_lines_free ps h.1)

  config_lines_free : (cfg : Config) → IsPrintable N cfg → AllFree (is_byte 10) (config_lines N cfg)
  unfolding config_lines str
  config_lines_free cfg h = (
    line-Free (str "PrivateKey") cfg.private_key refl
        (IsValue-IsText cfg.private_key h.private_value),
    AllFree-append _ (listed "Address" cfg.addresses) _
        (listed-Free "Address" cfg.addresses refl h.address_values)
        (AllFree-append _ (listed "DNS" cfg.dns) _ (listed-Free "DNS" cfg.dns refl h.dns_values) (
          AllFree-append _ (optional "MTU" cfg.mtu) _ (optional-Free "MTU" cfg.mtu refl h.mtu_value)
            (all_peer_lines_free cfg.peers h.peer_values))),
  )

  header-Free : Free (is_byte 10) (str "[Interface]")
  unfolding str
  header-Free =
      (refl, (refl, (refl, (refl, (refl, (refl, (refl, (refl, (refl, (refl, (refl, tt)))))))))))

  split-render :
      (cfg : Config)
      → IsPrintable N cfg
      → split 10 (render N cfg) ≡ str "[Interface]" ∷ config_lines N cfg
  unfolding render
  split-render cfg h =
      split-join 10 (str "[Interface]") (config_lines N cfg) (header-Free, config_lines_free cfg h)

  -- A valid configuration, written the way providers write it, parses to exactly that configuration:
  -- `PrivateKey = value` with the format's own capitals and spaces, and lists as one line with commas and
  -- spaces. The values are ASCII, not empty, have no space at their ends and hold no comma,
  -- comment sign or newline; and hosts and ports split again once joined.
  pub parse_config-render :
      (cfg : Config) → IsPrintable N cfg → IsValid N cfg → parse_config N (render N cfg) ≡ ok cfg
  unfolding parse_config
  parse_config-render cfg h v =
      let (end, e) = parse_config_lines cfg h in
      rw (split-render cfg h, parse_config) (rw e (rw ((validate_iff N cfg).1 v) refl))
