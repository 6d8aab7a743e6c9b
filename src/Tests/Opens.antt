-- ===== src/Tests/Opens.antt =====
-- What a test of the handler computes with.
use ohttp_relay.Text.{
  text_eq, is_empty, to_lower, trim_space, equal_fold, contains, split, split_n2,
}
use ohttp_relay.Text.Decimal.{decimal}
use ohttp_relay.Fault.{is}
use ohttp_relay.Http.{set_header, request_method}
use ohttp_relay.Exec.{◌>>=◌}
use ohttp_relay.Metrics.{
  record_request, record_error, status_category, record_gateway_request, record_traffic_io,
}
use ohttp_relay.Traffic.{record_traffic, no_op_record_traffic, generate_key}
use ohttp_relay.Gateway.{
  lookup, get, static_map_url_source, redis_target_url, chain_sources, http_key_config_source,
}
use ohttp_relay.Relay.{relay}
use ohttp_relay.Handlers.Response.{
  status_text, envoy_status, client_message, error_response, immediate_error_response, ok_response,
  extract_header_value,
}
use ohttp_relay.Handlers.Server.{
  new_server, record_host_traffic, accept_response, finish_forward, finish_key_config, is_foreign,
  forward_and_respond, respond_key_config, capture, check_request, on_request_headers,
}
use ohttp_relay.Handlers.Process.{
  note_response, after_send, send_responses, dispatch_result, is_too_large, on_request_body,
  handle_request, round, proceed, rounds, recorded_method, deferred, conclude, process,
}

unfoldable pub handler : Unit {0}
unfolding text_eq is_empty to_lower trim_space equal_fold contains split split_n2 decimal is
    set_header request_method ◌>>=◌ record_request record_error status_category
    record_gateway_request record_traffic_io record_traffic no_op_record_traffic generate_key lookup
    get static_map_url_source redis_target_url chain_sources http_key_config_source relay
    status_text envoy_status client_message error_response immediate_error_response ok_response
    extract_header_value new_server record_host_traffic accept_response finish_forward
    finish_key_config is_foreign forward_and_respond respond_key_config capture check_request
    on_request_headers note_response after_send send_responses dispatch_result is_too_large
    on_request_body handle_request round proceed rounds recorded_method deferred conclude process
handler = tt
