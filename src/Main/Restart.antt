-- ===== src/Main/Restart.antt =====
-- The end of main.cpp and the next start of the program.
use spatter.Boost.{IsDocumented, codes}
use spatter.Config.{Config, load_config, get_param, saved_text, save_config}
use spatter.Config.Files.{buffer_size}
use spatter.Config.RoundTrip.{IsEntry, DistinctNames, IsReordered, load_config-save_config}
use spatter.Main.{Host, start_up, shut_down}
use spatter.Messages.Str.{Str, str_eq}
use spatter.State.{State}
use spatter.Main.Repeats.{start_up-Repeats}
use spatter.Prelude.{
  ◌<◌, ◌≡◌, refl, sym, ◌∙◌, ap, true, false, [], subst, if◌then◌else◌, length, ltb, All, ok,
}

module _ {Text : Type 0} (h : Host Text) where
  -- The saved configuration.
  saved_lem :
      (c : Config)
      → h.opens c.config_file ≡ true
      → shut_down h c ≡ record c {
        files = λ f. if str_eq f c.config_file then saved_text (h.order c.props) else c.files f;
      }
  unfolding shut_down save_config
  saved_lem c o = rw o refl

  saved_other :
      (c : Config) (file : Str)
      → h.opens c.config_file ≡ true
      → str_eq file c.config_file ≡ false
      → (shut_down h c).files file ≡ c.files file
  saved_other c file o other = ap (λ (x : Config). x.files file) (saved_lem c o) ∙ rw other refl

  -- A start from what the last run has saved goes like the last start. If a start succeeds, and its
  -- parameters, of which each can be written as a line, are saved when the program ends, in any order, to
  -- a file shorter than the buffer that is not the list of friends, then a start with no parameters and
  -- the files as they then are succeeds too, with the same parameters, in that order, and in the same
  -- state. This is for the same answers of boost, the clock, the random numbers and the socket, and a
  -- start whose table of parameters has no name twice.
  pub start_up-shut_down :
      (c0 c : Config) (s : State Text)
      → IsDocumented h.boost
      → DistinctNames c0.props
      → h.opens (codes "spatter.conf") ≡ true
      → start_up h c0 ≡ ok (c, s)
      → IsReordered c.props (h.order c.props)
      → All IsEntry (h.order c.props)
      → length (saved_text (h.order c.props)) < buffer_size
      → str_eq (get_param (codes "dht.friendlist") c).0 (codes "spatter.conf") ≡ false
      → let saved = shut_down h c in
        start_up h (record saved { props = [] }) ≡ ok (record saved { props = h.order c.props }, s)
  unfolding shut_down
  start_up-shut_down c0 c s documented v opens e reordered entries short other =
      let r = start_up-Repeats h c0 c s v e in
      let o : h.opens c.config_file ≡ true = rw r.config_file opens in
      let loads =
        load_config-save_config h.boost documented h.order h.opens c o
          (reordered.distinct r.distinct) entries short in
      let read = record (shut_down h c) { props = h.order c.props } in
      r.again (record (shut_down h c) { props = [] }) read (ltb 0 (length (h.order c.props)))
        (subst
          (λ (x : Str).
            load_config h.boost x (record (shut_down h c) { props = [] })
            ≡ ok (ltb 0 (length (h.order c.props)), read))
          r.config_file loads)
        (λ key value h'. reordered.same key ∙ h')
        (saved_other c _ o (
          subst (λ (x : Str). str_eq (get_param (codes "dht.friendlist") c).0 x ≡ false)
            (sym r.config_file) other))
