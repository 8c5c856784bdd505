-- ===== src/Router/Uci.antt =====
-- The commands that the daemon runs on the router (internal/run/run.go, Runner), as argument
-- vectors, and what the `uci` ones are documented to do to the configuration. `uci` itself, the
-- shell and the init scripts are a parameter.
use mist_ui.Base.{
  ℕ, ◌≡◌, refl, ap, ◌∙◌, inl, inr, Bool, true, false, not, ◌&&◌, ◌||◌, List, [], ◌∷◌, ◌++◌, arith,
  if◌then◌else◌, nat_eq, Bytes, str, bytes_eq, Result, ok, err, Result-cases,
}

-- A configuration, a section and an option: the values of the option, none if it is absent. The
-- empty option stands for the section's type.
abbrev pub View : Type 0
View = Bytes → Bytes → Bytes → List Bytes

pub data Cmd : Type 0 where
  -- uci set conf.sec=type
  set_section : Bytes → Bytes → Bytes → Cmd
  -- uci set conf.sec.opt=val
  set_option : Bytes → Bytes → Bytes → Bytes → Cmd
  -- uci add_list conf.sec.opt=val
  add_list : Bytes → Bytes → Bytes → Bytes → Cmd
  -- sh -c "uci -q del_list 'conf.sec.opt=val' || true"
  del_list : Bytes → Bytes → Bytes → Bytes → Cmd
  -- sh -c "uci -q delete conf.sec || true"
  delete_section : Bytes → Bytes → Cmd
  -- sh -c "uci -q delete conf.sec.opt || true"
  delete_option : Bytes → Bytes → Bytes → Cmd
  -- uci commit conf
  commit : Bytes → Cmd
  -- uci -q get conf.sec
  get_section : Bytes → Bytes → Cmd
  -- an init script or `wifi`, with its action
  service : Bytes → Bytes → Cmd

abbrev dot : Bytes
dot = str "."

abbrev equals : Bytes
equals = str "="

abbrev or_true : Bytes
or_true = str " || true"

abbrev path : Bytes → Bytes → Bytes → Bytes
path conf sec opt = conf ++ (dot ++ (sec ++ (dot ++ opt)))

unfoldable pub argv : Cmd → List Bytes
argv (set_section conf sec t) =
    str "uci" ∷ str "set" ∷ (conf ++ (dot ++ (sec ++ (equals ++ t)))) ∷ []
argv (set_option conf sec opt v) = str "uci" ∷ str "set" ∷ (path conf sec opt ++ (equals ++ v)) ∷ []
argv (add_list conf sec opt v) =
    str "uci" ∷ str "add_list" ∷ (path conf sec opt ++ (equals ++ v)) ∷ []
argv (del_list conf sec opt v) =
    str "sh"
    ∷ str "-c"
    ∷ (str "uci -q del_list '" ++ (path conf sec opt ++ (equals ++ (v ++ (str "'" ++ or_true)))))
    ∷ []
argv (delete_section conf sec) =
    str "sh" ∷ str "-c" ∷ (str "uci -q delete " ++ (conf ++ (dot ++ (sec ++ or_true)))) ∷ []
argv (delete_option conf sec opt) =
    str "sh" ∷ str "-c" ∷ (str "uci -q delete " ++ (path conf sec opt ++ or_true)) ∷ []
argv (commit conf) = str "uci" ∷ str "commit" ∷ conf ∷ []
argv (get_section conf sec) = str "uci" ∷ str "-q" ∷ str "get" ∷ (conf ++ (dot ++ sec)) ∷ []
argv (service name action) = name ∷ action ∷ []

-- A list without the values that equal `v`.
unfoldable pub without : Bytes → List Bytes → List Bytes
without v [] = []
without v (x ∷ xs) = let rest = without v xs in if bytes_eq v x then rest else x ∷ rest

abbrev here : Bytes → Bytes → Bytes → Bytes → Bytes → Bytes → Bool
here conf sec opt c s o = bytes_eq conf c && bytes_eq sec s && bytes_eq opt o

-- What a command that succeeds does to the configuration.
unfoldable pub effect : Cmd → View → View
effect (set_section conf sec t) v c s o = if here conf sec [] c s o then t ∷ [] else v c s o
effect (set_option conf sec opt x) v c s o = if here conf sec opt c s o then x ∷ [] else v c s o
effect (add_list conf sec opt x) v c s o =
    if here conf sec opt c s o then v c s o ++ (x ∷ []) else v c s o
effect (del_list conf sec opt x) v c s o =
    if here conf sec opt c s o then without x (v c s o) else v c s o
effect (delete_section conf sec) v c s o = if bytes_eq conf c && bytes_eq sec s then [] else v c s o
effect (delete_option conf sec opt) v c s o = if here conf sec opt c s o then [] else v c s o
effect (commit conf) v c s o = v c s o
effect (get_section conf sec) v c s o = v c s o
effect (service name action) v c s o = v c s o

unfoldable pub effects : List Cmd → View → View
effects [] v = v
effects (c ∷ cs) v = effects cs (effect c v)

-- What it does to the files: a commit of a configuration writes what is staged. Given the staged
-- configuration and the files.
unfoldable pub saves : Cmd → View → View → View
saves (commit conf) v f c s o = if bytes_eq conf c then v c s o else f c s o
saves _ v f c s o = f c s o

-- The configurations that a service reads from the files when it is restarted or reloaded.
unfoldable pub reads : Bytes → Bytes → Bool
reads name conf =
    (bytes_eq name (str "/etc/init.d/firewall") && bytes_eq conf (str "firewall"))
    || (bytes_eq name (str "/etc/init.d/dnsmasq") && bytes_eq conf (str "dhcp"))
    || (bytes_eq name (str "/etc/init.d/network") && bytes_eq conf (str "network"))
    || (bytes_eq name (str "wifi") && bytes_eq conf (str "wireless"))

-- What it does to the configuration that the services have loaded. Given the files and what is loaded.
unfoldable pub loads : Cmd → View → View → View
loads (service name action) f l c s o = if reads name c then f c s o else l c s o
loads _ f l c s o = l c s o

-- `.`, `=`, a space and `'` do not occur in a name; a value that is set is not empty (`uci set` with
-- an empty value deletes); a value inside the quotes of a shell command has no quote.
unfoldable pub lacks : ℕ → Bytes → Bool
lacks c [] = true
lacks c (x ∷ xs) = not (nat_eq c x) && lacks c xs

unfoldable pub is_name : Bytes → Bool
unfolding lacks
is_name b = lacks 46 b && lacks 61 b && lacks 32 b && lacks 39 b

unfoldable pub is_value : Bytes → Bool
is_value [] = false
is_value (_ ∷ _) = true

unfoldable pub is_quotable : Bytes → Bool
is_quotable v = is_value v && lacks 39 v

unfoldable pub is_plain : Cmd → Bool
is_plain (set_section conf sec t) = is_name conf && is_name sec && is_value t
is_plain (set_option conf sec opt v) = is_name conf && is_name sec && is_name opt && is_value v
is_plain (add_list conf sec opt v) = is_name conf && is_name sec && is_name opt && is_value v
is_plain (del_list conf sec opt v) = is_name conf && is_name sec && is_name opt && is_quotable v
is_plain (delete_section conf sec) = is_name conf && is_name sec
is_plain (delete_option conf sec opt) = is_name conf && is_name sec && is_name opt
is_plain (commit conf) = is_name conf
is_plain (get_section conf sec) = is_name conf && is_name sec
is_plain (service name action) = true

unfoldable pub are_plain : List Cmd → Bool
are_plain [] = true
are_plain (c ∷ cs) = is_plain c && are_plain cs

-- `run` is Runner.Run on a command: its trimmed output or its error, and the router afterwards. Of a
-- router, `view` is the configuration that uci has staged, `saved` the one in its files and
-- `live` the one that its services have loaded.
pub record Runner (W : Type 0) : Type 0 where
  pub run : Cmd → W → Result Bytes × W
  pub view : W → View
  pub saved : W → View
  pub live : W → View

-- The runner that executes argument vectors.
abbrev pub exec_runner :
    {W : Type 0}
    → (List Bytes → W → Result Bytes × W)
    → (W → View)
    → (W → View)
    → (W → View)
    → Runner W
exec_runner exec view saved live = record {
  run = λ c w. exec (argv c) w;
  view = view;
  saved = saved;
  live = live;
}

pub record IsUci {W : Type 0} (U : Runner W) : Type 0 where
  pub run_effect :
      (c : Cmd) (w w' : W) (out : Bytes)
      → is_plain c ≡ true
      → U.run c w ≡ (ok out, w')
      → U.view w' ≡ effect c (U.view w)
  pub run_saves :
      (c : Cmd) (w w' : W) (out : Bytes)
      → is_plain c ≡ true
      → U.run c w ≡ (ok out, w')
      → U.saved w' ≡ saves c (U.view w) (U.saved w)
  pub run_loads :
      (c : Cmd) (w w' : W) (out : Bytes)
      → is_plain c ≡ true
      → U.run c w ≡ (ok out, w')
      → U.live w' ≡ loads c (U.saved w) (U.live w)

module _ {W : Type 0} (U : Runner W) where
  -- `runAll`: the first error ends the run.
  unfoldable pub run_all : List Cmd → W → Result (Unit {0}) × W
  run_all [] w = (ok tt, w)
  run_all (c ∷ cs) w =
      let rest = run_all cs (U.run c w).1 in
      elim (U.run c w).0 [ err e ↦ (err e, (U.run c w).1) | ok out ↦ rest ]

  -- A run without error has the effect of its commands in order.
  pub view-run_all :
      IsUci U
      → (cs : List Cmd) (w : W) → are_plain cs ≡ true
      → (run_all cs w).0 ≡ ok tt
      → U.view (run_all cs w).1 ≡ effects cs (U.view w)
  unfolding run_all effects are_plain
  view-run_all L [] w p h = refl
  view-run_all L (c ∷ cs) w p h = elim (Result-cases (U.run c w).0) [
    | inr (e, q) ↦ absurd (ground (arith, q))
    | inl (out, q) ↦
        rw (q, run_all)
          (view-run_all L cs (U.run c w).1 (ground arith) (ground (arith, q))
            ∙ ap (effects cs)
                (L.run_effect c w (U.run c w).1 out (ground arith) (ground (arith, q))))
  ]
