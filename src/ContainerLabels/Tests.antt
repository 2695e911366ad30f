-- ===== src/ContainerLabels/Tests.antt =====
-- Labels that are read and labels that are not.
use sagedockhand.Common.{nat_eq, text_eq, member, ◌≡◌, refl, true, false, Option, some, [], ◌∷◌}
use sagedockhand.Common.Text.{Text, codes, trim_start, trim_end, trim, lower_code, to_lower}
use sagedockhand.Common.JsMap.{JsMap, get}
use sagedockhand.ContainerLabels.{
  parse_label_bool, get_label, is_update_disabled_by_label, is_notify_disabled_by_label, parse_int,
  get_order_value, negsuc,
}

abbrev labels : Option (JsMap Text Text)
labels = some (
    (codes "dockhand.update", codes " No ")
    ∷ (codes "dockhand.notify", codes "off")
    ∷ (codes "dockhand.order", codes "-12px")
    ∷ [])

update_test : is_update_disabled_by_label labels ≡ true
unfolding is_update_disabled_by_label parse_label_bool get_label get member trim trim_start trim_end
    to_lower lower_code
update_test = refl

notify_test : is_notify_disabled_by_label labels ≡ false
unfolding is_notify_disabled_by_label parse_label_bool get_label get member trim trim_start trim_end
    to_lower lower_code
notify_test = refl

order_test : get_order_value labels ≡ negsuc 11
unfolding get_order_value get_label get trim trim_start trim_end parse_int
order_test = refl
