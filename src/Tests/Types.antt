-- ===== src/Tests/Types.antt =====
-- The choice of the kind of handler, at concrete inputs.
use unisock.Prelude.{◌≡◌, refl, Bool, true, false, none, some}
use unisock.Events.Types.{
  Macros, Setting, undefined, flag, kind, poll, select, poll_handler, handler_impl, handler_type,
}

-- What compilers define on Linux and on Darwin: `__linux__`, which the choice does not read, and
-- `__APPLE__`.
abbrev on_linux : Setting → Bool → Macros
on_linux setting strict = record {
  use_poll_handler = setting;
  linux = false;
  apple = false;
  net_bsd = false;
  free_bsd = false;
  warnings_are_errors = strict;
}

abbrev on_darwin : Setting → Bool → Macros
on_darwin setting strict = record (on_linux setting strict) { apple = true }

strict_linux : handler_type (on_linux undefined true) ≡ none
unfolding handler_type
strict_linux = refl

lenient_linux : handler_type (on_linux undefined false) ≡ some select
unfolding handler_type
lenient_linux = refl

no_select : handler_impl select ≡ none
unfolding handler_impl
no_select = refl

strict_darwin : handler_type (on_darwin undefined true) ≡ some poll
unfolding handler_type
strict_darwin = refl

poll_is_implemented : handler_impl poll ≡ some poll_handler
unfolding handler_impl
poll_is_implemented = refl

strict_setting : handler_type (on_darwin (kind poll) true) ≡ none
unfolding handler_type
strict_setting = refl

lenient_setting : handler_type (on_linux (kind poll) false) ≡ some poll
unfolding handler_type
lenient_setting = refl

documented_flag : handler_type (on_darwin flag false) ≡ none
unfolding handler_type
documented_flag = refl
