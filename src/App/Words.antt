-- ===== src/App/Words.antt =====
-- The words of the app's requests: methods, header names and the members of their bodies.
use vesper_platform.Base.{[], ◌∷◌}
use vesper_platform.Binary.Utf8.{Text}

abbrev pub text_post : Text
text_post = b'P' ∷ b'O' ∷ b'S' ∷ b'T' ∷ []

abbrev pub text_content_type : Text
text_content_type =
    b'C' ∷ b'o' ∷ b'n' ∷ b't' ∷ b'e' ∷ b'n' ∷ b't' ∷ b'-' ∷ b'T' ∷ b'y' ∷ b'p' ∷ b'e' ∷ []

abbrev pub text_json : Text
text_json =
    b'a' ∷ b'p' ∷ b'p' ∷ b'l' ∷ b'i' ∷ b'c' ∷ b'a' ∷ b't' ∷ b'i' ∷ b'o' ∷ b'n' ∷ b'/' ∷ b'j' ∷ b's'
    ∷ b'o' ∷ b'n' ∷ []

abbrev pub text_idempotency_key : Text
text_idempotency_key =
    b'X' ∷ b'-' ∷ b'I' ∷ b'd' ∷ b'e' ∷ b'm' ∷ b'p' ∷ b'o' ∷ b't' ∷ b'e' ∷ b'n' ∷ b'c' ∷ b'y' ∷ b'-'
    ∷ b'K' ∷ b'e' ∷ b'y' ∷ []

abbrev pub text_null : Text
text_null = b'n' ∷ b'u' ∷ b'l' ∷ b'l' ∷ []

abbrev pub text_bearer : Text
text_bearer = b'B' ∷ b'e' ∷ b'a' ∷ b'r' ∷ b'e' ∷ b'r' ∷ b' ' ∷ []

abbrev pub text_dpop_scheme : Text
text_dpop_scheme = b'D' ∷ b'P' ∷ b'o' ∷ b'P' ∷ b' ' ∷ []

abbrev pub text_id : Text
text_id = b'i' ∷ b'd' ∷ []

abbrev pub text_name : Text
text_name = b'n' ∷ b'a' ∷ b'm' ∷ b'e' ∷ []

abbrev pub text_price : Text
text_price = b'p' ∷ b'r' ∷ b'i' ∷ b'c' ∷ b'e' ∷ []

abbrev pub text_quantity : Text
text_quantity = b'q' ∷ b'u' ∷ b'a' ∷ b'n' ∷ b't' ∷ b'i' ∷ b't' ∷ b'y' ∷ []

abbrev pub text_barcode : Text
text_barcode = b'b' ∷ b'a' ∷ b'r' ∷ b'c' ∷ b'o' ∷ b'd' ∷ b'e' ∷ []

abbrev pub text_total : Text
text_total = b't' ∷ b'o' ∷ b't' ∷ b'a' ∷ b'l' ∷ []

abbrev pub text_items : Text
text_items = b'i' ∷ b't' ∷ b'e' ∷ b'm' ∷ b's' ∷ []

abbrev pub text_card : Text
text_card = b'c' ∷ b'a' ∷ b'r' ∷ b'd' ∷ []

abbrev pub text_number : Text
text_number = b'n' ∷ b'u' ∷ b'm' ∷ b'b' ∷ b'e' ∷ b'r' ∷ []

abbrev pub text_exp_month : Text
text_exp_month = b'e' ∷ b'x' ∷ b'p' ∷ b'M' ∷ b'o' ∷ b'n' ∷ b't' ∷ b'h' ∷ []

abbrev pub text_exp_year : Text
text_exp_year = b'e' ∷ b'x' ∷ b'p' ∷ b'Y' ∷ b'e' ∷ b'a' ∷ b'r' ∷ []

abbrev pub text_cvc : Text
text_cvc = b'c' ∷ b'v' ∷ b'c' ∷ []

abbrev pub text_cvc_value : Text
text_cvc_value = b'1' ∷ b'2' ∷ b'3' ∷ []

abbrev pub text_test_card : Text
text_test_card =
    b'4' ∷ b'2' ∷ b'4' ∷ b'2' ∷ b'4' ∷ b'2' ∷ b'4' ∷ b'2' ∷ b'4' ∷ b'2' ∷ b'4' ∷ b'2' ∷ b'4' ∷ b'2'
    ∷ b'4' ∷ b'2' ∷ []

abbrev pub text_ledger : Text
text_ledger = b'l' ∷ b'e' ∷ b'd' ∷ b'g' ∷ b'e' ∷ b'r' ∷ []

abbrev pub text_index : Text
text_index = b'i' ∷ b'n' ∷ b'd' ∷ b'e' ∷ b'x' ∷ []

abbrev pub text_timestamp : Text
text_timestamp = b't' ∷ b'i' ∷ b'm' ∷ b'e' ∷ b's' ∷ b't' ∷ b'a' ∷ b'm' ∷ b'p' ∷ []

abbrev pub text_payload : Text
text_payload = b'p' ∷ b'a' ∷ b'y' ∷ b'l' ∷ b'o' ∷ b'a' ∷ b'd' ∷ []

abbrev pub text_preceding_hash : Text
text_preceding_hash =
    b'p' ∷ b'r' ∷ b'e' ∷ b'c' ∷ b'e' ∷ b'd' ∷ b'i' ∷ b'n' ∷ b'g' ∷ b'H' ∷ b'a' ∷ b's' ∷ b'h' ∷ []

abbrev pub text_hash : Text
text_hash = b'h' ∷ b'a' ∷ b's' ∷ b'h' ∷ []

abbrev pub text_success : Text
text_success = b's' ∷ b'u' ∷ b'c' ∷ b'c' ∷ b'e' ∷ b's' ∷ b's' ∷ []

abbrev pub text_pay_path : Text
text_pay_path =
    b'/' ∷ b'a' ∷ b'p' ∷ b'i' ∷ b'/' ∷ b'v' ∷ b'1' ∷ b'/' ∷ b'c' ∷ b'h' ∷ b'e' ∷ b'c' ∷ b'k' ∷ b'o'
    ∷ b'u' ∷ b't' ∷ b'/' ∷ b'p' ∷ b'a' ∷ b'y' ∷ []

abbrev pub text_online_path : Text
text_online_path =
    b'/' ∷ b'a' ∷ b'p' ∷ b'i' ∷ b'/' ∷ b'v' ∷ b'1' ∷ b'/' ∷ b'c' ∷ b'h' ∷ b'e' ∷ b'c' ∷ b'k' ∷ b'o'
    ∷ b'u' ∷ b't' ∷ b'/' ∷ b'o' ∷ b'n' ∷ b'l' ∷ b'i' ∷ b'n' ∷ b'e' ∷ []

abbrev pub text_in_store_path : Text
text_in_store_path =
    b'/' ∷ b'a' ∷ b'p' ∷ b'i' ∷ b'/' ∷ b'v' ∷ b'1' ∷ b'/' ∷ b'c' ∷ b'h' ∷ b'e' ∷ b'c' ∷ b'k' ∷ b'o'
    ∷ b'u' ∷ b't' ∷ b'/' ∷ b'i' ∷ b'n' ∷ b's' ∷ b't' ∷ b'o' ∷ b'r' ∷ b'e' ∷ []

abbrev pub text_login_path : Text
text_login_path =
    b'/' ∷ b'a' ∷ b'p' ∷ b'i' ∷ b'/' ∷ b'v' ∷ b'1' ∷ b'/' ∷ b'a' ∷ b'u' ∷ b't' ∷ b'h' ∷ b'/' ∷ b'l'
    ∷ b'o' ∷ b'g' ∷ b'i' ∷ b'n' ∷ []

abbrev pub text_register_path : Text
text_register_path =
    b'/' ∷ b'a' ∷ b'p' ∷ b'i' ∷ b'/' ∷ b'v' ∷ b'1' ∷ b'/' ∷ b'a' ∷ b'u' ∷ b't' ∷ b'h' ∷ b'/' ∷ b'r'
    ∷ b'e' ∷ b'g' ∷ b'i' ∷ b's' ∷ b't' ∷ b'e' ∷ b'r' ∷ []

abbrev pub text_simulated_path : Text
text_simulated_path =
    b'/' ∷ b'd' ∷ b'e' ∷ b'v' ∷ b'-' ∷ b'm' ∷ b'e' ∷ b'n' ∷ b'u' ∷ b'/' ∷ b's' ∷ b'i' ∷ b'm' ∷ b'u'
    ∷ b'l' ∷ b'a' ∷ b't' ∷ b'e' ∷ b'd' ∷ b'-' ∷ b't' ∷ b'r' ∷ b'a' ∷ b'n' ∷ b's' ∷ b'a' ∷ b'c'
    ∷ b't' ∷ b'i' ∷ b'o' ∷ b'n' ∷ []

abbrev pub text_simulated : Text
text_simulated = b's' ∷ b'i' ∷ b'm' ∷ b'u' ∷ b'l' ∷ b'a' ∷ b't' ∷ b'e' ∷ b'd' ∷ []

abbrev pub text_label : Text
text_label = b'l' ∷ b'a' ∷ b'b' ∷ b'e' ∷ b'l' ∷ []

abbrev pub text_ts : Text
text_ts = b't' ∷ b's' ∷ []
