-- ===== src/Client/Moq/Control.antt =====
-- Track namespaces and the control messages of crates/voip-client/src/moq.rs. A text is the list of
-- its UTF-8 bytes.
use three_pillars_voip.Base.{
  ℕ, Bool, true, false, ◌&&◌, ◌||◌, List, [], ◌∷◌, ◌++◌, Option, none, some, length, ◌==◌,
  if◌then◌else◌, String,
}
use three_pillars_voip.Client.Proxy.Base64.{codes}
use three_pillars_voip.Client.Moq.Varint.{encode_varint}

pub record TrackNamespace : Type 0 where
  pub namespace : List ℕ
  pub alias : ℕ
  pub priority : ℕ

-- The four priorities.
abbrev pub audio_priority : ℕ
audio_priority = 0

abbrev pub video_keyframe_priority : ℕ
video_keyframe_priority = 1

abbrev pub screen_share_priority : ℕ
screen_share_priority = 3

abbrev named : List ℕ → String → ℕ → TrackNamespace
named peer_id suffix priority = record {
  namespace = codes "voip/" ++ (peer_id ++ codes suffix);
  alias = 0;
  priority = priority;
}

unfoldable pub audio : List ℕ → TrackNamespace
audio peer_id = named peer_id "/audio/opus-48k" audio_priority

unfoldable pub video : List ℕ → TrackNamespace
video peer_id = named peer_id "/video/vp9-720p" video_keyframe_priority

unfoldable pub screen : List ℕ → TrackNamespace
screen peer_id = named peer_id "/screen/vp9-1080p" screen_share_priority

pub with_alias : ℕ → TrackNamespace → TrackNamespace
with_alias alias t = record t { alias = alias }

pub data MediaType : Type 0 where
  audio_media video_media screen_media unknown_media : MediaType

unfoldable pub starts_with : List ℕ → List ℕ → Bool
starts_with [] text = true
starts_with (c ∷ cs) [] = false
starts_with (c ∷ cs) (d ∷ ds) = (c == d) && starts_with cs ds

-- `contains`: the pattern starts somewhere in the text.
unfoldable pub contains : List ℕ → List ℕ → Bool
unfolding starts_with
contains pattern [] = starts_with pattern []
contains pattern (c ∷ cs) = starts_with pattern (c ∷ cs) || contains pattern cs

unfoldable pub media_type : TrackNamespace → MediaType
unfolding contains
media_type t =
    if contains (codes "/audio/") t.namespace
    then audio_media
    else if contains (codes "/video/") t.namespace
    then video_media
    else if contains (codes "/screen/") t.namespace
    then screen_media
    else unknown_media

abbrev slash : ℕ
slash = b'/'

-- Up to the next slash, and what stands behind it, if there is one.
unfoldable pub until_slash : List ℕ → List ℕ × Option (List ℕ)
until_slash [] = ([], none)
until_slash (c ∷ cs) =
    let (part, rest) = until_slash cs in if c == slash then ([], some cs) else (c ∷ part, rest)

-- Two parts as the namespace and the rest as the track, where there are three.
unfoldable pub parse_namespace : List ℕ → List ℕ × List ℕ
unfolding until_slash
parse_namespace full =
    let (first, rest) = until_slash full in
    elim rest [
      | none ↦ (full, [])
      | some rest ↦
          let (second, third) = until_slash rest in
          elim third [ none ↦ (full, []) | some track ↦ (first ++ (slash ∷ second), track) ]
    ]

pub data StartPoint : Type 0 where
  latest earliest : StartPoint
  absolute : (group object : ℕ) → StartPoint

abbrev pub encode_start : StartPoint → List ℕ
encode_start latest = encode_varint 1
encode_start earliest = encode_varint 2
encode_start (absolute group object) =
    encode_varint 3 ++ (encode_varint group ++ encode_varint object)

abbrev pub encode_text : List ℕ → List ℕ
encode_text text = encode_varint (length text) ++ text

unfoldable pub announce_bytes : TrackNamespace → List ℕ
announce_bytes t = encode_varint 3 ++ encode_text t.namespace

unfoldable pub subscribe_bytes : ℕ → TrackNamespace → StartPoint → List ℕ
unfolding parse_namespace
subscribe_bytes subscribe_id t start =
    let (ns, track_name) = parse_namespace t.namespace in
    encode_varint 6
    ++ (encode_varint subscribe_id
        ++ (encode_text ns
            ++ (encode_text track_name ++ (encode_varint t.priority ++ encode_start start))))

pub record QualityReport : Type 0 where
  pub track_alias : ℕ
  pub last_seq : ℕ
  pub received : ℕ
  pub lost : ℕ
  pub rtt_us : ℕ
  pub jitter_us : ℕ

abbrev pub new_report : ℕ → QualityReport
new_report track_alias = record {
  track_alias = track_alias;
  last_seq = 0;
  received = 0;
  lost = 0;
  rtt_us = 0;
  jitter_us = 0;
}

unfoldable pub quality_report_bytes : QualityReport → List ℕ
quality_report_bytes r =
    encode_varint 0x80
    ++ (encode_varint r.track_alias
        ++ (encode_varint r.last_seq
            ++ (encode_varint r.received ++ (encode_varint r.lost ++ encode_varint r.rtt_us))))

unfoldable pub track_update_bytes : ℕ → ℕ → List ℕ
track_update_bytes subscribe_id priority =
    encode_varint 0x10 ++ (encode_varint subscribe_id ++ encode_varint priority)

abbrev pub encode_texts : List (List ℕ) → List ℕ
encode_texts [] = []
encode_texts (text ∷ texts) = encode_text text ++ encode_texts texts

unfoldable pub migration_bytes : List (List ℕ) → List (List ℕ) → List ℕ
migration_bytes new_ipv6_addresses new_ipv4_reflexive =
    encode_varint 0x20
    ++ (encode_varint (length new_ipv6_addresses)
        ++ (encode_texts new_ipv6_addresses
            ++ (encode_varint (length new_ipv4_reflexive) ++ encode_texts new_ipv4_reflexive)))
