-- ===== src/Vpn/Connector/Imports/Interface.antt =====
-- internal/vpn/vpn.go, Import: the section of the interface.
use mathlib.Core.List.{append_assoc, append-nil}
use mist_ui.Vpn.Connector.Imports.Section.{optional, set_or, set_or_same, set_or-optional}
use mist_ui.Vpn.Connector.{network, iface, Options, when_set, interface_cmds}
use mist_ui.Router.Uci.{
  View, Cmd, delete_section, set_section, add_list, set_option, effect, effects,
}
use mist_ui.Vpn.Config.{Config}
use mist_ui.Base.{
  ◌≡◌, refl, ap, ◌∙◌, inl, inr, false, ◌&&◌, List, [], ◌∷◌, ◌++◌, map, arith, if◌then◌else◌, Bytes,
  str, bytes_eq, Bool-cases,
}

effects-append : (cs ds : List Cmd) (v : View) → effects (cs ++ ds) v ≡ effects ds (effects cs v)
unfolding effects
effects-append [] ds v = refl
effects-append (c ∷ cs) ds v = effects-append cs ds (effect c v)

add_lists :
    (o q : Bytes) (xs : List Bytes) (v : View)
    → effects (map (add_list network iface o) xs) v network iface q
      ≡ (if bytes_eq o q then v network iface q ++ xs else v network iface q)
unfolding effects effect str bytes_eq
add_lists o q [] v = elim (Bool-cases (bytes_eq o q)) [
  | inl h ↦ ground (arith, h, append-nil (v network iface q))
  | inr h ↦ ground (arith, h)
]
add_lists o q (x ∷ xs) v =
    let k = add_lists o q xs (effect (add_list network iface o x) v) in
    elim (Bool-cases (bytes_eq o q)) [
      | inl h ↦ ground (arith, h, k, append_assoc (v network iface q) (x ∷ []) xs)
      | inr h ↦ ground (arith, h, k)
    ]

set_at :
    (o q x : Bytes) (v : View)
    → effects (when_set x (set_option network iface o x ∷ [])) v network iface q
      ≡ set_or x (if bytes_eq o q then x ∷ [] else v network iface q) (v network iface q)
unfolding effects effect set_or str bytes_eq
set_at o q [] v = refl
set_at o q (c ∷ x) v = refl

head : Config → List Cmd
head cfg =
    delete_section network iface
    ∷ set_section network iface (str "interface")
    ∷ set_option network iface (str "proto") (str "wireguard")
    ∷ set_option network iface (str "auto") (str "0")
    ∷ set_option network iface (str "private_key") cfg.private_key
    ∷ []

interface_cmds-parts :
    (cfg : Config) (v : View)
    → effects (interface_cmds cfg) v
      ≡ effects (when_set cfg.mtu (set_option network iface (str "mtu") cfg.mtu ∷ [])) (
          effects (map (add_list network iface (str "dns")) cfg.dns) (
            effects
              (map (add_list network iface (str "addresses")) cfg.addresses)
              (effects (head cfg) v)))
unfolding interface_cmds head
interface_cmds-parts cfg v =
    effects-append (head cfg) _ v
    ∙ effects-append (map (add_list network iface (str "addresses")) cfg.addresses) _
        (effects (head cfg) v)
    ∙ effects-append (map (add_list network iface (str "dns")) cfg.dns) _ (
        effects (map (add_list network iface (str "addresses")) cfg.addresses)
          (effects (head cfg) v))

listed : Config → View → Bytes → List Bytes
listed cfg v q =
    let first = effects (head cfg) v network iface q in
    let addressed = if bytes_eq (str "addresses") q then first ++ cfg.addresses else first in
    if bytes_eq (str "dns") q then addressed ++ cfg.dns else addressed

interface_at :
    (cfg : Config) (v : View) (q : Bytes)
    → effects (interface_cmds cfg) v network iface q
      ≡ set_or cfg.mtu
          (if bytes_eq (str "mtu") q then cfg.mtu ∷ [] else listed cfg v q)
          (listed cfg v q)
unfolding listed
interface_at cfg v q =
    let v1 = effects (head cfg) v in
    let v2 = effects (map (add_list network iface (str "addresses")) cfg.addresses) v1 in
    let v3 = effects (map (add_list network iface (str "dns")) cfg.dns) v2 in
    ap (λ w. w network iface q) (interface_cmds-parts cfg v)
    ∙ set_at (str "mtu") q cfg.mtu v3
    ∙ rw (add_lists (str "dns") q cfg.dns v2, add_lists (str "addresses") q cfg.addresses v1) refl

-- The section of the interface says what the configuration says.
pub record HasInterface (cfg : Config) (s : Options) : Type 0 where
  pub is_interface : s [] ≡ str "interface" ∷ []
  pub proto : s (str "proto") ≡ str "wireguard" ∷ []
  pub auto : s (str "auto") ≡ str "0" ∷ []
  pub private_key : s (str "private_key") ≡ cfg.private_key ∷ []
  pub addresses : s (str "addresses") ≡ cfg.addresses
  pub dns : s (str "dns") ≡ cfg.dns
  pub mtu : s (str "mtu") ≡ optional cfg.mtu

pub interface_cmds-HasInterface :
    (cfg : Config) (v : View) → HasInterface cfg (effects (interface_cmds cfg) v network iface)
unfolding listed head effects effect str bytes_eq
interface_cmds-HasInterface cfg v = record {
  is_interface = interface_at cfg v [] ∙ set_or_same cfg.mtu _;
  proto = interface_at cfg v (str "proto") ∙ set_or_same cfg.mtu _;
  auto = interface_at cfg v (str "auto") ∙ set_or_same cfg.mtu _;
  private_key = interface_at cfg v (str "private_key") ∙ set_or_same cfg.mtu _;
  addresses = interface_at cfg v (str "addresses") ∙ set_or_same cfg.mtu _;
  dns = interface_at cfg v (str "dns") ∙ set_or_same cfg.mtu _;
  mtu = interface_at cfg v (str "mtu") ∙ set_or-optional cfg.mtu cfg.mtu;
}

module _ (c s o : Bytes) (away : (bytes_eq network c && bytes_eq iface s) ≡ false) where
  add_lists_away :
      (q : Bytes) (xs : List Bytes) (v : View)
      → effects (map (add_list network iface q) xs) v c s o ≡ v c s o
  unfolding effects effect
  add_lists_away q [] v = refl
  add_lists_away q (x ∷ xs) v =
      add_lists_away q xs (effect (add_list network iface q x) v) ∙ ground (arith, away)

  head_away : (cfg : Config) (v : View) → effects (head cfg) v c s o ≡ v c s o
  unfolding effects effect head
  head_away cfg v = ground (arith, away)

  mtu_away :
      (x : Bytes) (v : View)
      → effects (when_set x (set_option network iface (str "mtu") x ∷ [])) v c s o ≡ v c s o
  unfolding effects effect
  mtu_away [] v = refl
  mtu_away (d ∷ x) v = ground (arith, away)

  pub interface_cmds_away :
      (cfg : Config) (v : View) → effects (interface_cmds cfg) v c s o ≡ v c s o
  interface_cmds_away cfg v =
      let v1 = effects (head cfg) v in
      let v2 = effects (map (add_list network iface (str "addresses")) cfg.addresses) v1 in
      let v3 = effects (map (add_list network iface (str "dns")) cfg.dns) v2 in
      ap (λ w. w c s o) (interface_cmds-parts cfg v)
      ∙ mtu_away cfg.mtu v3
      ∙ add_lists_away (str "dns") cfg.dns v2
      ∙ add_lists_away (str "addresses") cfg.addresses v1
      ∙ head_away cfg v
