-- ===== src/Webhook/Service/Fqdn.antt =====
-- What isFQDN accepts.
use edgecdnx_controller.Common.{
  ℕ, ◌≤◌, ◌≡◌, ◌⊎◌, true, false, List, Text, All, All-of_all, All-mono, arith, length,
}
use edgecdnx_controller.Strings.{split, trim_suffix}
use edgecdnx_controller.Strings.Laws.{join, join-split}
use edgecdnx_controller.Webhook.Service.{is_label_byte, is_label, is_fqdn, first_is, last_is}

-- A letter, a digit or a hyphen.
abbrev pub IsLabelByte : ℕ → Type 0
IsLabelByte c =
    ((b'a' ≤ c) × (c ≤ b'z'))
    ⊎ (((b'A' ≤ c) × (c ≤ b'Z')) ⊎ (((b'0' ≤ c) × (c ≤ b'9')) ⊎ (c ≡ b'-')))

-- A label of a host name: 1 to 63 letters, digits and hyphens, no hyphen at either end.
pub record IsLabel (label : Text) : Type 0 where
  pub not_empty : 1 ≤ length label
  pub short : length label ≤ 63
  pub first : first_is b'-' label ≡ false
  pub last : last_is b'-' label ≡ false
  pub bytes : All IsLabelByte label

is_label_byte_sound : (c : ℕ) → is_label_byte c ≡ true → IsLabelByte c
unfolding is_label_byte
is_label_byte_sound c h = ground arith

is_label_sound : (label : Text) → is_label label ≡ true → IsLabel label
unfolding is_label
is_label_sound label h = record {
  not_empty = ground arith;
  short = ground arith;
  first = ground arith;
  last = ground arith;
  bytes = All-mono label is_label_byte_sound (All-of_all is_label_byte label (ground arith));
}

-- A host that isFQDN accepts, less one dot at its end, is at most 253 bytes long and consists of two
-- or more labels with dots between them.
pub is_fqdn_sound :
    (host : Text)
    → is_fqdn host ≡ true
    → (labels : List Text) × (join b'.' labels ≡ trim_suffix b'.' host)
      × (2 ≤ length labels)
      × (length (trim_suffix b'.' host) ≤ 253)
      × All IsLabel labels
unfolding is_fqdn
is_fqdn_sound host h =
    let labels = split b'.' (trim_suffix b'.' host) in
    (
      labels,
      join-split b'.' (trim_suffix b'.' host),
      ground arith,
      ground arith,
      All-mono labels is_label_sound (All-of_all is_label labels (ground arith)),
    )
