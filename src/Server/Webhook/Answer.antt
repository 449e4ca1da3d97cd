-- ===== src/Server/Webhook/Answer.antt =====
-- What an access from `getAccessFromWebhook` of server/server.go shows of the exchange.
use ftpserver.Base.{◌≡◌, some, Text, bytes, ok, >>=-eq-ok, arith}
use ftpserver.Confpar.{Access, AccessesWebhook}
use ftpserver.Server.Webhook.{
  Request, Response, Http, request_headers, check_request, check_status, get_access_from_webhook,
}

abbrev pub request_to : AccessesWebhook → Text → Request
request_to w body = record {
  method = bytes "POST";
  url = w.url;
  headers = request_headers w;
  body = body;
  timeout = w.timeout;
}

-- The webhook was asked with this request and answered this access.
pub record Answers (http : Http) (w : AccessesWebhook) (user pass : Text) (access : Access)
    : Type 0 where
  pub body : Text
  pub response : Response
  pub text : Text
  pub credentials : http.marshal_credentials user pass ≡ ok body
  pub sent : http.do_request (request_to w body) ≡ ok response
  pub status : response.status_code ≡ 200
  pub read : http.read_all response ≡ ok text
  pub decoded : http.unmarshal_access text ≡ ok (some access)

check_status-eq-ok :
    (resp : Response) {u : Unit {0}} → check_status resp ≡ ok u → resp.status_code ≡ 200
unfolding check_status
check_status-eq-ok resp h = ground arith

pub get_access_from_webhook-Answers :
    (http : Http) (w : AccessesWebhook) (user pass : Text) {a : Access}
    → get_access_from_webhook http w user pass ≡ ok (some a)
    → Answers http w user pass a
unfolding get_access_from_webhook
get_access_from_webhook-Answers http w user pass h =
    let (body, credentials, h1) = >>=-eq-ok (http.marshal_credentials user pass) _ h in
    let (checked, _, h2) = >>=-eq-ok (check_request (http.new_request (bytes "POST") w.url)) _ h1 in
    let (resp, sent, h3) = >>=-eq-ok (http.do_request (request_to w body)) _ h2 in
    let (good, status, h4) = >>=-eq-ok (check_status resp) _ h3 in
    let (text, read, decoded) = >>=-eq-ok (http.read_all resp) _ h4 in
    record {
      body = body;
      response = resp;
      text = text;
      credentials = credentials;
      sent = sent;
      status = check_status-eq-ok resp status;
      read = read;
      decoded = decoded;
    }
