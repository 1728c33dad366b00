-- ===== src/Tunnel/Relay/Choice.antt =====
-- Which channel `relay_stream` (src/tunnel/relay.rs) takes for a target.
use Prim.Native.String.{String}
use text.Mathlib.Text.{◌==◌ as str_eq}
use rsnova.Base.{
  ℕ, zero, suc, ◌≡◌, refl, sym, ◌∙◌, ap, ◌⊎◌, inl, inr, Bool, false, ◌&&◌, ◌||◌, not, ◌==◌, Option,
  none, some, List, [], ◌∷◌, All, length, get_elem?, arith, Bool-cases, Option-cases, if◌then◌else◌,
}
use rsnova.Base.Fallback.{or_else, or_default, or_default-or_else}
use rsnova.Base.Outcome.{Outcome, ok, err, Error, other}
use rsnova.Buffer.{is_nil}
use rsnova.Config.{Regex, PacConfig, is_match}
use rsnova.Message.{ConnectRequest}
use rsnova.Session.{
  MuxSession, ChannelMuxSession, ChannelSessionManager, get, live_count, get_channel_session_size,
}
use rsnova.Session.Slots.{sessions_of, live_count-length}
use rsnova.Session.Create.{next_idx, moved, try_slot, create_loop, create_stream}
use rsnova.Session.Routine.{string_is_empty}
use rsnova.Channel.Opening.{get_rmux_stream, get_channel_stream}
use rsnova.Tunnel.Relay.{is_usable, choose_loop, choose_channel, relay_stream}

module _ {R : Type 0} (regex : Regex R) (m : ChannelSessionManager) (target : List ℕ) where
  -- A rule whose pattern has been compiled, as `start_tunnel_server` does before it listens.
  abbrev pub IsCompiled : PacConfig R → Type 0
  IsCompiled pac = (re : R) × (pac.re ≡ some re)

  abbrev pub fits : Option R → Bool
  fits none = false
  fits (some re) = regex.is_match re target

  -- A channel that a stream can be opened in now, or the direct connection.
  abbrev pub can_take : String → Bool
  can_take channel = str_eq channel "direct" || not (is_nil (sessions_of m channel))

  is_nil-length {ℓ} : {A : Type ℓ} (xs : List A) → (length xs == 0) ≡ is_nil xs
  is_nil-length [] = refl
  is_nil-length (x ∷ xs) = ground arith

  size-sessions :
      (channel : String) → get_channel_session_size m channel ≡ length (sessions_of m channel)
  unfolding get_channel_session_size
  size-sessions channel = elim (Option-cases (get channel m.channels)) [
    | inl e ↦ rw (e, get_channel_session_size) refl
    | inr (c, e) ↦ rw (e, get_channel_session_size) (live_count-length c.sessions)
  ]

  is_usable_lem : (channel : String) → is_usable m channel ≡ can_take channel
  unfolding is_usable
  is_usable_lem channel =
      ap (λ n. str_eq channel "direct" || not (n == 0)) (size-sessions channel)
      ∙ ap (λ b. str_eq channel "direct" || not b) (is_nil-length (sessions_of m channel))

  -- The channel of the first rule that matches and can be used now.
  abbrev pub first_usable : List (PacConfig R) → Option String
  first_usable [] = none
  first_usable (pac ∷ pacs) =
      let later = first_usable pacs in
      if fits pac.re && can_take pac.channel then some pac.channel else later

  -- The channel of the last rule that matches.
  abbrev pub last_match : List (PacConfig R) → Option String
  last_match [] = none
  last_match (pac ∷ pacs) =
      or_else (last_match pacs) (if fits pac.re then some pac.channel else none)

  abbrev pub no_empty : String → Outcome String
  no_empty channel =
      if string_is_empty channel then err (other "no valid channel found.") else ok channel

  last_added :
      (u l x : Option String) (d : String)
      → or_default (or_else u l) (or_default x d) ≡ or_default (or_else u (or_else l x)) d
  last_added none l x d = sym (or_default-or_else l x d)
  last_added (some c) l x d = refl

  choose_loop_lem :
      (pacs : List (PacConfig R)) (channel : String)
      → All IsCompiled pacs
      → choose_loop regex m target pacs channel
        ≡ ok (or_default (or_else (first_usable pacs) (last_match pacs)) channel)
  unfolding choose_loop is_match
  choose_loop_lem [] channel c = refl
  choose_loop_lem (pac ∷ pacs) channel ((re, e), c) = elim (Bool-cases (regex.is_match re target)) [
    | inr out ↦
        rw (e, out)
          (choose_loop_lem pacs channel c
            ∙ ap ok (last_added (first_usable pacs) (last_match pacs) none channel))
    | inl hit ↦ elim (Bool-cases (can_take pac.channel)) [
      | inl free ↦ rw (e, hit, is_usable_lem pac.channel, free) refl
      | inr held ↦
          rw (e, hit, is_usable_lem pac.channel, held)
            (choose_loop_lem pacs (pac.channel) c
              ∙ ap ok (last_added (first_usable pacs) (last_match pacs) (some pac.channel) channel))
    ]
  ]

  -- Among rules with compiled patterns, `choose_channel` takes the channel of the first rule that
  -- matches the target and can be used now, which means "direct" or a channel with a session; where
  -- no matching rule can be used, that of the last rule that matches. An empty name, or no rule that
  -- matches, is the error "no valid channel found.".
  pub choose_channel_lem :
      (pacs : List (PacConfig R))
      → All IsCompiled pacs
      → choose_channel regex m target pacs
        ≡ no_empty (or_default (or_else (first_usable pacs) (last_match pacs)) "")
  unfolding choose_channel
  choose_channel_lem pacs c =
      let channel = or_default (or_else (first_usable pacs) (last_match pacs)) "" in
      rw (choose_loop_lem pacs "" c)
        (elim (Bool-cases (string_is_empty channel)) [ inl e ↦ rw e refl | inr e ↦ rw e refl ])

  held_back :
      (pacs : List (PacConfig R)) (channel : String)
      → first_usable pacs ≡ none
      → last_match pacs ≡ some channel
      → can_take channel ≡ false
  held_back [] channel u l = cc
  held_back (pac ∷ pacs) channel u l = elim (Bool-cases (fits pac.re && can_take pac.channel)) [
    | inl both ↦ let v : some pac.channel ≡ none = rw both at u in cc
    | inr not_both ↦
        let u' : first_usable pacs ≡ none = rw not_both at u in
        elim (Option-cases (last_match pacs)) [
          | inr (c, e) ↦
              let l' : some c ≡ some channel = rw e at l in held_back pacs channel u' (e ∙ l')
          | inl e ↦ elim (Bool-cases (fits pac.re)) [
            | inl hit ↦
                let l' : some pac.channel ≡ some channel = rw (e, hit) at l in
                let f : can_take pac.channel ≡ false = rw hit at not_both in
                let same : pac.channel ≡ channel = cc in ap can_take (sym same) ∙ f
            | inr out ↦ let l' : none ≡ some channel = rw (e, out) at l in cc
          ]
        ]
  ]

  idle_slot :
      (slots : List (Option MuxSession)) (k : ℕ)
      → live_count slots ≡ 0
      → (get_elem? slots k ≡ none) ⊎ (get_elem? slots k ≡ some none)
  unfolding live_count
  idle_slot [] k h = inl refl
  idle_slot (none ∷ slots) zero h = inr refl
  idle_slot (none ∷ slots) (suc k) h = idle_slot slots k h
  idle_slot (some s ∷ slots) k h = absurd (omega (arith, h))

  create_loop-idle :
      (serialize : ConnectRequest → List ℕ) (rounds : ℕ) (channel : String) (proto addr : List ℕ)
      (c : ChannelMuxSession)
      → live_count c.sessions ≡ 0
      → (create_loop serialize rounds channel proto addr c).1 ≡ none
  unfolding create_loop try_slot
  create_loop-idle serialize zero channel proto addr c h = refl
  create_loop-idle serialize (suc rounds) channel proto addr c h =
      let later = create_loop-idle serialize rounds channel proto addr (moved c) h in
      elim (idle_slot c.sessions (next_idx c) h) [ inl e ↦ rw e later | inr e ↦ rw e later ]

  -- A channel with no session takes no stream.
  create_stream-idle :
      (serialize : ConnectRequest → List ℕ) (channel : String) (proto addr : List ℕ)
      → get_channel_session_size m channel ≡ 0
      → (create_stream serialize m channel proto addr).1 ≡ none
  unfolding create_stream get_channel_session_size
  create_stream-idle serialize channel proto addr h = elim (Option-cases (get channel m.channels)) [
    | inl e ↦ rw (e, get_channel_session_size) refl
    | inr (c, e) ↦
        let k : live_count c.sessions ≡ 0 = rw (e, get_channel_session_size) at h in
        rw e (create_loop-idle serialize (length c.sessions) channel proto addr c k)
  ]

  -- Where no matching rule can be used, `relay_stream` fails: it opens neither a connection of its
  -- own nor a stream of another channel, whatever `connect` and the first write would do.
  pub relay_stream_unusable :
      (serialize : ConnectRequest → List ℕ) (connects writes : Bool) (pacs : List (PacConfig R))
      (relay_buf : List ℕ)
      → All IsCompiled pacs
      → first_usable pacs ≡ none
      → (e : Error) × ((relay_stream regex serialize m connects writes target pacs relay_buf).1
          ≡ err e)
  unfolding relay_stream get_channel_stream get_rmux_stream is_usable
  relay_stream_unusable serialize connects writes pacs relay_buf c u =
      let chosen = choose_channel_lem pacs c in
      elim (Option-cases (last_match pacs)) [
        | inl l ↦ (other "no valid channel found.", rw (chosen, u, l) refl)
        | inr (channel, l) ↦ elim (Bool-cases (string_is_empty channel)) [
          | inl e ↦ (other "no valid channel found.", rw (chosen, u, l, e) refl)
          | inr e ↦
              let held = is_usable_lem channel ∙ held_back pacs channel u l in
              let not_direct : str_eq channel "direct" ≡ false = ground (arith, held) in
              let size : get_channel_session_size m channel ≡ 0 = ground (arith, held) in
              (
                other "no channel found.",
                rw (chosen, u, l, e, not_direct, create_stream-idle serialize channel _ target size)
                    refl,
              )
        ]
      ]
