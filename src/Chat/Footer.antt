-- ===== src/Chat/Footer.antt =====
-- The safety texts that end every answer of src/agents/router.py, and its budget of characters.
use coin_pilot.Base.{ℕ, ◌+◌, ◌-◌, max, ◌++◌, [], ◌∷◌, length, take, leb, if◌then◌else◌}
use coin_pilot.Base.Text.{Text, codes, strip, rstrip, remove, newline, cut_out}
use coin_pilot.Chat.Settings.{Settings, at_least}
use coin_pilot.Chat.Intents.{Intent, scenario_required}

abbrev pub safety_disclaimer : Text
safety_disclaimer = codes "이 답변은 참고용 분석이며 투자 권유가 아닙니다. 최종 결정은 본인 판단과 리스크 한도 기준으로 진행하세요."

abbrev pub scenario_note : Text
scenario_note = codes "시장 예측은 단정할 수 없으며, 가능한 시나리오를 기준으로 해석해야 합니다."

abbrev pub trunc_note : Text
trunc_note = codes "[응답 길이 제한으로 일부 내용이 생략되었습니다.]"

abbrev no_response : Text
no_response = codes "응답을 생성하지 못했습니다."

abbrev pub max_chars : Settings → ℕ
max_chars st = at_least 200 st.max_output_chars

unfoldable pub clip_output_text : Settings → Text → Text
unfolding rstrip
clip_output_text st text =
    if leb (length text) (max_chars st)
    then text
    else rstrip (take (max_chars st - 40) text) ++ newline ++ trunc_note

-- `"\n".join(footer_lines)`
abbrev pub footer_of : Intent → Text
footer_of intent =
    if scenario_required intent
    then scenario_note ++ newline ++ safety_disclaimer
    else safety_disclaimer

-- `response.strip() if response else ...`
abbrev body_of : Text → Text
body_of [] = no_response
body_of (c ∷ s) = strip (c ∷ s)

-- The body as far as the budget allows.
abbrev pub fit_body : ℕ → Text → Text → Text
fit_body budget text footer =
    if leb (length text + 1 + length footer) budget
    then text ++ newline ++ footer
    else rstrip (take (max 40 (budget - length footer - length trunc_note - 2)) text)
      ++ newline
      ++ trunc_note
      ++ newline
      ++ footer

abbrev pub with_footer : ℕ → Text → Text → Text
with_footer budget [] footer = footer
with_footer budget (c ∷ text) footer = fit_body budget (c ∷ text) footer

unfoldable pub ensure_safety_footer : Settings → Text → Intent → Text
unfolding strip rstrip cut_out
ensure_safety_footer st response intent =
    let text = strip (remove scenario_note (remove safety_disclaimer (body_of response))) in
    with_footer (max_chars st) text (footer_of intent)
