-- ===== src/Firmware/Chains.antt =====
-- apps/firmware/src/services/wifi/index.js: chains of commands run to their ends.
use fula_archived.Prelude.{
  Bool, true, false, Option, some, List, [], ◌∷◌, ◌++◌, ◌≡◌, refl, sym, ap, ◌∙◌, ==_refl,
  append_assoc, append-nil, if◌then◌else◌,
}
use fula_archived.Firmware.{
  Command, code, Files, Script, call_back, call_back_connected, write, exec, if_connected, Device,
  start, start_all, finished, finished_all,
}

module _ (linked : List Command → Bool) where
  -- What a script does behind some commands: its own commands, its files and what its last callback is
  -- called with.
  unfoldable pub commands : Script → List Command → List Command
  commands (call_back r) ran = []
  commands call_back_connected ran = []
  commands (write f s) ran = commands s ran
  commands (exec c s) ran = c ∷ commands s (ran ++ c ∷ [])
  commands (if_connected s t) ran =
      let cs = commands s ran in let ct = commands t ran in if linked ran then cs else ct

  unfoldable pub files : Script → List Command → List Files
  files (call_back r) ran = []
  files call_back_connected ran = []
  files (write f s) ran = f ∷ files s ran
  files (exec c s) ran = files s (ran ++ c ∷ [])
  files (if_connected s t) ran =
      let fs = files s ran in let ft = files t ran in if linked ran then fs else ft

  unfoldable pub outcome : Script → List Command → Option Bool
  outcome (call_back r) ran = r
  outcome call_back_connected ran = some (linked ran)
  outcome (write f s) ran = outcome s ran
  outcome (exec c s) ran = outcome s (ran ++ c ∷ [])
  outcome (if_connected s t) ran =
      let rs = outcome s ran in let rt = outcome t ran in if linked ran then rs else rt

  -- The device when a script has run to its end.
  abbrev pub run_to_end : Script → Device → Device
  run_to_end s d = record d {
    ran = d.ran ++ commands s d.ran;
    written = d.written ++ files s d.ran;
    results = d.results ++ outcome s d.ran ∷ [];
  }

  -- A device by its fields.
  abbrev device : List (Command × Script) → List Command → List Files → List (Option Bool) → Device
  device ls ran written results = record {
    listeners = ls;
    ran = ran;
    written = written;
    results = results;
  }

  own_finished :
      (c : Command) (s : Script) (ran : List Command) (written : List Files)
      (results : List (Option Bool))
      → finished linked c (device ((c, s) ∷ []) ran written results)
        ≡ start linked s (device [] ran written results)
  unfolding finished start_all
  own_finished c s ran written results = rw (==_refl (code c)) refl

  pick :
      (k : Bool) (ran cs ct : List Command) (written fs ft : List Files)
      (results : List (Option Bool)) (rs rt : Option Bool) (ds dt : Device)
      → finished_all linked cs ds ≡ device [] (ran ++ cs) (written ++ fs) (results ++ rs ∷ [])
      → finished_all linked ct dt ≡ device [] (ran ++ ct) (written ++ ft) (results ++ rt ∷ [])
      → finished_all linked (if k then cs else ct) (if k then ds else dt)
        ≡ device []
            (ran ++ (if k then cs else ct))
            (written ++ (if k then fs else ft))
            (results ++ (if k then rs else rt) ∷ [])
  pick true ran cs ct written fs ft results rs rt ds dt p q = p
  pick false ran cs ct written fs ft results rs rt ds dt p q = q

  ends :
      (s : Script) (ran : List Command) (written : List Files) (results : List (Option Bool))
      → finished_all linked (commands s ran) (start linked s (device [] ran written results))
        ≡ device [] (ran ++ commands s ran) (written ++ files s ran) (results ++ outcome s ran ∷ [])
  unfolding finished_all start commands files outcome
  ends (call_back r) ran written results = rw (append-nil ran, append-nil written) refl
  ends call_back_connected ran written results = rw (append-nil ran, append-nil written) refl
  ends (write f s) ran written results =
      ends s ran (written ++ f ∷ []) results
      ∙ ap (λ fs. device [] (ran ++ commands s ran) fs (results ++ outcome s ran ∷ []))
          (append_assoc written (f ∷ []) (files s ran))
  ends (exec c s) ran written results =
      let ran2 = ran ++ c ∷ [] in
      ap (finished_all linked (commands s ran2)) (own_finished c s ran2 written results)
      ∙ ends s ran2 written results
      ∙ ap (λ cs. device [] cs (written ++ files s ran2) (results ++ outcome s ran2 ∷ []))
          (append_assoc ran (c ∷ []) (commands s ran2))
  ends (if_connected s t) ran written results =
      pick (linked ran) ran (commands s ran) (commands t ran) written (files s ran) (files t ran)
        results (outcome s ran) (outcome t ran) (start linked s (device [] ran written results))
        (start linked t (device [] ran written results)) (ends s ran written results)
        (ends t ran written results)

  -- On a device that waits for no command, when each command that a script runs finishes, in their order, the
  -- device has run exactly the commands of the script, has written its files and has called its callback
  -- once, and waits for no command again. Whether it is connected may change with every command.
  pub run_to_end_lem :
      (s : Script) (d : Device)
      → d.listeners ≡ []
      → finished_all linked (commands s d.ran) (start linked s d) ≡ run_to_end s d
  run_to_end_lem s d e =
      let alone : d ≡ record d { listeners = [] } = ap (λ ls. record d { listeners = ls }) e in
      ap (λ k. finished_all linked (commands s d.ran) (start linked s k)) alone
      ∙ ends s d.ran d.written d.results
      ∙ sym (ap (λ ls. record (run_to_end s d) { listeners = ls }) e)
